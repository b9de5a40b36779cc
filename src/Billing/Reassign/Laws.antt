-- ===== src/Billing/Reassign/Laws.antt =====
-- Reassignment: when it happens, what it leaves, and what it keeps.
use fk_cesis_mms.Base.{
  ℕ, ◌≡◌, refl, ap, sym, ◌∙◌, true, false, Option, some, List, [], ◌∷◌, arith, inl, inr,
}
use fk_cesis_mms.Base.Text.{Text, is_blank}
use fk_cesis_mms.Errors.{Result, ok, err, Result-cases, integrity_error}
use fk_cesis_mms.Models.{BillingRecord, Agreement, Db, draft, find_agreement}
use fk_cesis_mms.Models.Action.{Unchanged}
use fk_cesis_mms.Billing.Calendar.{Date}
use fk_cesis_mms.Billing.Plan.{MembershipPlan}
use fk_cesis_mms.Billing.Store.{find_record, invoices_of, pushed_or_sent_any}
use fk_cesis_mms.Billing.Store.Update.{find-update}
use fk_cesis_mms.Billing.Reassign.{
  check_new_month, checked_month, copy_reassigned, conflicts, update_agreement,
  reassign_draft_billing_record,
}
use fk_cesis_mms.Billing.Reassign.NewMonth.{IsNewMonth, check_new_month-IsNewMonth}
use fk_cesis_mms.Billing.Reassign.Outcome.{
  Reassigns, refused, moves, moved, reassign-Reassigns, reassign-conflict,
}

find-synced :
    (k plan_id : ℕ) (month : Text) (rows : List Agreement) (a : Agreement)
    → find_agreement k rows ≡ some a
    → find_agreement k (
        update_agreement k
          (λ x. record x { billing_plan_id = some plan_id; first_billing_month = month })
          rows)
      ≡ some (record a { billing_plan_id = some plan_id; first_billing_month = month })
find-synced k plan_id month [] a found = absurd (cc)
find-synced k plan_id month (x ∷ rows) a found = ground (arith, find-synced k plan_id month rows a)

module _ (r : BillingRecord) (plan : MembershipPlan) (month : Text) (today : Date) (db : Db) where
  Reassigns-Unchanged :
      {out : Result BillingRecord × Db} → Reassigns r plan month today db out → Unchanged db out
  Reassigns-Unchanged (refused e) = refl
  Reassigns-Unchanged (moves new_month count h k m c) = tt

  -- A reassignment that raises, from whichever step, has changed nothing.
  pub reassign-Unchanged : Unchanged db (reassign_draft_billing_record r plan month today db)
  reassign-Unchanged = Reassigns-Unchanged (reassign-Reassigns r plan month today db)

  abbrev pub MayMove : Type 0
  MayMove =
      (r.status ≡ draft)
      × (pushed_or_sent_any (invoices_of r.pk db) ≡ false)
      × (checked : Text × Option ℕ) × (checked_month plan month today ≡ ok checked)
      × (conflicts r.pk r.member_id plan.season db.records ≡ false)

  checked-given :
      (new_month : Text) (count : Option ℕ)
      → is_blank month ≡ false
      → checked_month plan month today ≡ ok (new_month, count)
      → (k : ℕ) × (count ≡ some k) × (check_new_month plan month today ≡ ok (new_month, k))
  checked-given new_month count given m = elim (Result-cases (check_new_month plan month today)) [
    | inr (x, e) ↦ absurd (ground (arith, given, m, e))
    | inl ((month', k), e) ↦
        let same : ◌≡◌ {A = Text × Option ℕ} (month', some k) (new_month, count) =
          cc (rw (given, e) at m) in
        (k, ap (λ o. o.1) (sym same), e ∙ ap (λ o. ok (o.0, k)) same)
  ]

  Reassigns-IsNewMonth :
      {out : Result BillingRecord × Db} (r' : BillingRecord)
      → is_blank month ≡ false
      → Reassigns r plan month today db out
      → out.0 ≡ ok r'
      → (count : ℕ) × (r'.scheduled_installment_count ≡ some count)
        × IsNewMonth plan today r'.first_billing_month count
  Reassigns-IsNewMonth r' given (refused x) e = absurd (cc)
  Reassigns-IsNewMonth r' given (moves new_month count h k m c) e =
      let (n, counted, checked) = checked-given new_month count given m in
      let same : moved r plan month today db new_month count ≡ r' = cc in
      rw (← same) (n, counted, check_new_month-IsNewMonth plan month today new_month n checked)

  -- Where a month was given and the record was moved, its month is in the plan's season-start year
  -- and not before the default month of today, and its count is the one of that calendar year.
  pub reassign-IsNewMonth :
      (r' : BillingRecord)
      → is_blank month ≡ false
      → (reassign_draft_billing_record r plan month today db).0 ≡ ok r'
      → (count : ℕ) × (r'.scheduled_installment_count ≡ some count)
        × IsNewMonth plan today r'.first_billing_month count
  reassign-IsNewMonth r' given e =
      Reassigns-IsNewMonth r' given (reassign-Reassigns r plan month today db) e

  -- The stored record stands on the plan, with no invoice left, and its agreement on the record's
  -- plan and month.
  abbrev pub IsSynced : Agreement → Db → Type 0
  IsSynced a db' =
      (stored : BillingRecord) × (find_record r.pk db'.records ≡ some stored)
      × (stored.plan_id ≡ plan.pk)
      × (stored.season ≡ plan.season)
      × (stored.invoices ≡ [])
      × (find_agreement a.pk db'.agreements
          ≡ some (record a {
            billing_plan_id = some stored.plan_id;
            first_billing_month = stored.first_billing_month;
          }))

  Reassigns-IsSynced :
      {out : Result BillingRecord × Db} (r' row : BillingRecord) (a : Agreement)
      → find_record r.pk db.records ≡ some row
      → r.agreement_id ≡ some a.pk
      → find_agreement a.pk db.agreements ≡ some a
      → Reassigns r plan month today db out
      → out.0 ≡ ok r'
      → IsSynced a out.1
  Reassigns-IsSynced r' row a found linked known (refused x) e = absurd (cc)
  Reassigns-IsSynced r' row a found linked known (moves new_month count h k m c) e =
      let new = moved r plan month today db new_month count in
      rw linked (
        copy_reassigned new row,
        find-update r.pk (copy_reassigned new) db.records row (λ x. refl) found,
        refl,
        refl,
        refl,
        find-synced a.pk plan.pk new_month db.agreements a known,
      )

  -- After a stored record with an agreement was moved, the stored record is on the new plan and
  -- season with no invoice left, and the agreement has its plan and month.
  pub reassign-IsSynced :
      (r' row : BillingRecord) (a : Agreement)
      → find_record r.pk db.records ≡ some row
      → r.agreement_id ≡ some a.pk
      → find_agreement a.pk db.agreements ≡ some a
      → (reassign_draft_billing_record r plan month today db).0 ≡ ok r'
      → IsSynced a (reassign_draft_billing_record r plan month today db).1
  reassign-IsSynced r' row a found linked known e =
      Reassigns-IsSynced r' row a found linked known (reassign-Reassigns r plan month today db) e

  -- When the member has another record in the plan's season, a draft with no pushed or sent invoice
  -- whose month passes its checks is refused by the database's constraint, and nothing has changed.
  pub reassign-taken :
      (checked : Text × Option ℕ)
      → r.status ≡ draft
      → pushed_or_sent_any (invoices_of r.pk db) ≡ false
      → checked_month plan month today ≡ ok checked
      → conflicts r.pk r.member_id plan.season db.records ≡ true
      → reassign_draft_billing_record r plan month today db ≡ (err integrity_error, db)
  reassign-taken (new_month, count) h k m c =
      reassign-conflict r plan month today db new_month count h k m c
