-- ===== src/Billing/Records/Invoices.antt =====
-- The invoices that a record is given.
use fk_cesis_mms.Base.{
  ◌≡◌, ◌≢◌, ◌≤◌, refl, sym, ap, ◌∙◌, true, false, none, some, List, [], ◌++◌, arith, Option-cases,
  Bool-cases, inl, inr, map, length,
}
use fk_cesis_mms.Base.Int.{ℤ, pos, negsuc, sum_ℤ}
use fk_cesis_mms.Errors.{Error, Result, ok, err, does_not_exist, Result-cases}
use fk_cesis_mms.Models.{BillingInvoice, BillingRecord, Db, find_plan}
use fk_cesis_mms.Billing.Plan.{MembershipPlan}
use fk_cesis_mms.Billing.Schedule.{Row}
use fk_cesis_mms.Billing.Store.{find_record}
use fk_cesis_mms.Billing.Records.Rows.{
  numbered, amounts-new, length-new, by_sequence-new, sequences-new, installment_rows-sum,
  by_sequence-empty, nonempty-new,
}
use fk_cesis_mms.Billing.Store.Update.{find-update}
use fk_cesis_mms.Billing.Records.{
  is_nonempty, is_zero, by_sequence, new_invoices, installment_rows, store_invoices,
  create_invoices, materialize_installments,
}

is_zero-pos : (a : ℤ) → is_zero a ≡ true → a ≡ pos 0
is_zero-pos (pos n) h = ground arith
is_zero-pos (negsuc n) h = cc

module _ (r row : BillingRecord) (db : Db) (found : find_record r.pk db.records ≡ some row) where
  -- What a call does: there is nothing to pay, or there are invoices already, or it fails and
  -- writes nothing, or it adds the invoices of the rows.
  data Materializes : Result (List BillingInvoice) × Db → Type 0 where
    nothing : r.final_amount ≡ pos 0 → Materializes (ok [], db)
    existing :
        is_zero r.final_amount ≡ false
        → is_nonempty (by_sequence row.invoices) ≡ true
        → Materializes (ok (by_sequence row.invoices), db)
    fails : (e : Error) → Materializes (err e, db)
    creates :
        (p : MembershipPlan) (rows : List Row)
        → is_zero r.final_amount ≡ false
        → is_nonempty (by_sequence row.invoices) ≡ false
        → installment_rows r p ≡ ok rows
        → Materializes (
          ok (new_invoices db.next_pk 1 rows),
          store_invoices r.pk (new_invoices db.next_pk 1 rows) db,
        )

  materialize-zero : is_zero r.final_amount ≡ true → materialize_installments r db ≡ (ok [], db)
  unfolding materialize_installments
  materialize-zero h = ground arith

  materialize-existing :
      is_zero r.final_amount ≡ false
      → is_nonempty (by_sequence row.invoices) ≡ true
      → materialize_installments r db ≡ (ok (by_sequence row.invoices), db)
  unfolding materialize_installments
  materialize-existing h k = ground arith

  materialize-create :
      is_zero r.final_amount ≡ false
      → is_nonempty (by_sequence row.invoices) ≡ false
      → materialize_installments r db ≡ create_invoices r db
  unfolding materialize_installments
  materialize-create h k = ground arith

  create-no_plan :
      find_plan r.plan_id db.plans ≡ none → create_invoices r db ≡ (err does_not_exist, db)
  unfolding create_invoices
  create-no_plan h = ground arith

  create-no_rows :
      (p : MembershipPlan) (e : Error)
      → find_plan r.plan_id db.plans ≡ some p
      → installment_rows r p ≡ err e
      → create_invoices r db ≡ (err e, db)
  unfolding create_invoices
  create-no_rows p e h k = ground arith

  create-rows :
      (p : MembershipPlan) (rows : List Row)
      → find_plan r.plan_id db.plans ≡ some p
      → installment_rows r p ≡ ok rows
      → create_invoices r db ≡ (
        ok (new_invoices db.next_pk 1 rows),
        store_invoices r.pk (new_invoices db.next_pk 1 rows) db,
      )
  unfolding create_invoices
  create-rows p rows h k = ground arith

  create-Materializes :
      is_zero r.final_amount ≡ false
      → is_nonempty (by_sequence row.invoices) ≡ false
      → Materializes (create_invoices r db)
  create-Materializes h k = elim (Option-cases (find_plan r.plan_id db.plans)) [
    | inl missing ↦ rw (create-no_plan missing) (fails does_not_exist)
    | inr (p, plan) ↦ elim (Result-cases (installment_rows r p)) [
      | inl (rows, e) ↦ rw (create-rows p rows plan e) (creates p rows h k e)
      | inr (x, e) ↦ rw (create-no_rows p x plan e) (fails x)
    ]
  ]

  materialize-Materializes : Materializes (materialize_installments r db)
  materialize-Materializes = elim (Bool-cases (is_zero r.final_amount)) [
    | inl h ↦ rw (materialize-zero h) (nothing (is_zero-pos r.final_amount h))
    | inr h ↦ elim (Bool-cases (is_nonempty (by_sequence row.invoices))) [
      | inl k ↦ rw (materialize-existing h k) (existing h k)
      | inr k ↦ rw (materialize-create h k) (create-Materializes h k)
    ]
  ]

  -- What is true of the invoices that a call has made.
  abbrev pub IsMaterialized : List BillingInvoice → Db → Type 0
  IsMaterialized invoices db' =
      (sum_ℤ (map (λ i. i.amount) invoices) ≡ r.final_amount)
      × (1 ≤ length invoices)
      × (map (λ i. i.sequence) invoices ≡ numbered 1 (length invoices))
      × (find_record r.pk db'.records ≡ some (record row { invoices = row.invoices ++ invoices }))

  new-IsMaterialized :
      (p : MembershipPlan) (rows : List Row)
      → installment_rows r p ≡ ok rows
      → IsMaterialized
          (new_invoices db.next_pk 1 rows)
          (store_invoices r.pk (new_invoices db.next_pk 1 rows) db)
  new-IsMaterialized p rows e =
      let invoices = new_invoices db.next_pk 1 rows in
      let (sum, many) = installment_rows-sum r p rows e in
      (
        ap sum_ℤ (amounts-new db.next_pk 1 rows) ∙ sum,
        omega (arith, many, length-new db.next_pk 1 rows),
        sequences-new db.next_pk 1 rows ∙ ap (numbered 1) (sym (length-new db.next_pk 1 rows)),
        find-update r.pk (λ x. record x { invoices = x.invoices ++ invoices }) db.records row
            (λ x. refl) found,
      )

  Materializes-IsMaterialized :
      {out : Result (List BillingInvoice) × Db} (invoices : List BillingInvoice)
      → row.invoices ≡ []
      → r.final_amount ≢ pos 0
      → Materializes out
      → out.0 ≡ ok invoices
      → IsMaterialized invoices out.1
  Materializes-IsMaterialized invoices empty due (nothing h) e = absurd (due h)
  Materializes-IsMaterialized invoices empty due (existing x h) e = absurd (cc (rw empty at h))
  Materializes-IsMaterialized invoices empty due (fails x) e = absurd (cc)
  Materializes-IsMaterialized invoices empty due (creates p rows h k made) e =
      let same : new_invoices db.next_pk 1 rows ≡ invoices = cc in
      rw (← same) (new-IsMaterialized p rows made)

  -- The invoices made for a stored record without any, where there is something to pay, add up to
  -- the final amount, are at least one, are numbered from 1, and are those that the record has
  -- afterwards.
  pub materialize_lem :
      (invoices : List BillingInvoice)
      → row.invoices ≡ []
      → r.final_amount ≢ pos 0
      → (materialize_installments r db).0 ≡ ok invoices
      → IsMaterialized invoices (materialize_installments r db).1
  materialize_lem invoices empty due e =
      Materializes-IsMaterialized invoices empty due materialize-Materializes e

zero_again :
    (r : BillingRecord) (db : Db)
    → r.final_amount ≡ pos 0
    → materialize_installments r db ≡ (ok [], db)
unfolding materialize_installments
zero_again r db h = rw h

module _ (r row : BillingRecord) (db : Db) (found : find_record r.pk db.records ≡ some row) where
  created_again :
      (p : MembershipPlan) (rows : List Row)
      → is_zero r.final_amount ≡ false
      → row.invoices ≡ []
      → installment_rows r p ≡ ok rows
      → let invoices = new_invoices db.next_pk 1 rows in
        let db' = store_invoices r.pk invoices db in
        materialize_installments r db' ≡ (ok invoices, db')
  created_again p rows h empty made =
      let invoices = new_invoices db.next_pk 1 rows in
      let stored = record row { invoices = row.invoices ++ invoices } in
      let has : by_sequence stored.invoices ≡ invoices =
        rw empty (by_sequence-new db.next_pk 1 rows) in
      let (_, many) = installment_rows-sum r p rows made in
      materialize-existing r stored (store_invoices r.pk invoices db)
        (find-update r.pk (λ x. record x { invoices = x.invoices ++ invoices }) db.records row
          (λ x. refl) found)
        h (rw has (nonempty-new db.next_pk 1 rows many))
      ∙ ap (λ l. (ok l, store_invoices r.pk invoices db)) has

  Materializes-again :
      {out : Result (List BillingInvoice) × Db} (invoices : List BillingInvoice)
      → Materializes r row db found out
      → out.0 ≡ ok invoices
      → materialize_installments r out.1 ≡ (ok invoices, out.1)
  Materializes-again invoices (nothing h) e = rw (← e) (zero_again r db h)
  Materializes-again invoices (existing x h) e = rw (← e) (materialize-existing r row db found x h)
  Materializes-again invoices (fails x) e = absurd (cc)
  Materializes-again invoices (creates p rows h k made) e =
      rw (← e) (created_again p rows h (by_sequence-empty row.invoices k) made)

  -- A second call for a stored record returns the invoices of the first call and changes nothing.
  pub materialize_again :
      (invoices : List BillingInvoice)
      → (materialize_installments r db).0 ≡ ok invoices
      → let db' = (materialize_installments r db).1 in
        materialize_installments r db' ≡ (ok invoices, db')
  materialize_again invoices e =
      Materializes-again invoices (materialize-Materializes r row db found) e
