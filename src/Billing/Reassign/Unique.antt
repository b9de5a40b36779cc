-- ===== src/Billing/Reassign/Unique.antt =====
-- A reassignment keeps one record for each member and season.
use fk_cesis_mms.Base.{
  ℕ, ◌≡◌, refl, ◌∙◌, true, false, Option, none, some, List, [], ◌∷◌, arith, Bool-cases, inl, inr,
  All, ◌==◌, ==_iff, if◌then◌else◌,
}
use fk_cesis_mms.Base.Text.{Text}
use fk_cesis_mms.Errors.{Result}
use fk_cesis_mms.Models.{BillingRecord, Db}
use fk_cesis_mms.Billing.Calendar.{Date}
use fk_cesis_mms.Billing.Plan.{MembershipPlan}
use fk_cesis_mms.Billing.Store.{is_for, update_record, save_record}
use fk_cesis_mms.Billing.Store.Unique.{IsUnique, is_for_comm}
use fk_cesis_mms.Billing.Reassign.{
  copy_reassigned, sync_agreement, conflicts, reassign_draft_billing_record,
}
use fk_cesis_mms.Billing.Reassign.Outcome.{Reassigns, refused, moves, moved, reassign-Reassigns}

-- Each key is that of one row.
abbrev pub KeysDiffer : List BillingRecord → Type 0
KeysDiffer [] = Unit
KeysDiffer (x ∷ rows) = All (λ y. (y.pk == x.pk) ≡ false) rows × KeysDiffer rows

-- The rows of a key are the member's.
abbrev pub BelongTo : ℕ → ℕ → List BillingRecord → Type 0
BelongTo k member_id = All (λ x. (x.pk == k) ≡ true → x.member_id ≡ member_id)

module _ (r : BillingRecord) where
  -- Rows of other keys are not the moved record's rivals.
  no_rival :
      (rows : List BillingRecord)
      → conflicts r.pk r.member_id r.season rows ≡ false
      → All (λ y. (y.pk == r.pk) ≡ false) rows
      → All (λ y. is_for r.member_id r.season y ≡ false) rows
  no_rival [] c d = tt
  no_rival (y ∷ rows) c d = (ground (arith, c, d.0), no_rival rows (ground (arith, c)) d.1)

  untouched :
      (f : BillingRecord → BillingRecord) (rows : List BillingRecord)
      → All (λ y. (y.pk == r.pk) ≡ false) rows
      → update_record r.pk f rows ≡ rows
  untouched f [] d = refl
  untouched f (y ∷ rows) d = rw (d.0, untouched f rows d.1)

  one_other :
      (x y : BillingRecord) (rows : List BillingRecord)
      → (x.pk == r.pk) ≡ false
      → conflicts r.pk r.member_id r.season (x ∷ y ∷ rows) ≡ false
      → BelongTo r.pk r.member_id (y ∷ rows)
      → All (λ z. is_for x.member_id x.season z ≡ false) (y ∷ rows)
      → is_for x.member_id x.season (if y.pk == r.pk then copy_reassigned r y else y) ≡ false
  one_other x y rows other c b u = elim (Bool-cases (y.pk == r.pk)) [
    | inl own ↦
        let mine : y.member_id ≡ r.member_id = b.0 own in
        let free : is_for r.member_id r.season x ≡ false = ground (arith, c, other) in
        rw own (is_for_comm x (copy_reassigned r y) ∙ rw mine free)
    | inr differs ↦ rw differs u.0
  ]

  others :
      (x : BillingRecord) (rows : List BillingRecord)
      → (x.pk == r.pk) ≡ false
      → conflicts r.pk r.member_id r.season (x ∷ rows) ≡ false
      → BelongTo r.pk r.member_id rows
      → All (λ y. is_for x.member_id x.season y ≡ false) rows
      → All
          (λ y. is_for x.member_id x.season y ≡ false)
          (update_record r.pk (copy_reassigned r) rows)
  others x [] other c b u = tt
  others x (y ∷ rows) other c b u =
      (one_other x y rows other c b u, others x rows other (ground (arith, c)) b.1 u.1)

  moved_away :
      (x : BillingRecord) (rows : List BillingRecord)
      → conflicts r.pk r.member_id r.season (x ∷ rows) ≡ false
      → KeysDiffer (x ∷ rows)
      → BelongTo r.pk r.member_id (x ∷ rows)
      → (x.pk == r.pk) ≡ true
      → All (λ y. is_for x.member_id r.season y ≡ false) rows
  moved_away x rows c d b own =
      let mine : x.member_id ≡ r.member_id = b.0 own in
      let same : x.pk ≡ r.pk = (==_iff x.pk r.pk).0 own in
      rw mine (no_rival rows (ground (arith, c)) (rw same at d.0))

  update-IsUnique :
      (rows : List BillingRecord)
      → conflicts r.pk r.member_id r.season rows ≡ false
      → KeysDiffer rows
      → BelongTo r.pk r.member_id rows
      → IsUnique rows
      → IsUnique (update_record r.pk (copy_reassigned r) rows)
  update-IsUnique [] c d b u = tt
  update-IsUnique (x ∷ rows) c d b u =
      let rest = update-IsUnique rows (ground (arith, c)) d.1 b.1 u.1 in
      elim (Bool-cases (x.pk == r.pk)) [
        | inl own ↦
            let same : x.pk ≡ r.pk = (==_iff x.pk r.pk).0 own in
            rw own (
              (rw (untouched (copy_reassigned r) rows (rw same at d.0))
                  (moved_away x rows c d b own)),
              rest,
            )
        | inr other ↦ rw other (others x rows other c b.1 u.0, rest)
      ]

module _ (r : BillingRecord) (plan : MembershipPlan) (month : Text) (today : Date) (db : Db) where
  synced-records :
      (agreement_id : Option ℕ) (plan_id : ℕ) (new_month : Text) (db' : Db)
      → (sync_agreement agreement_id plan_id new_month db').records ≡ db'.records
  synced-records none plan_id new_month db' = refl
  synced-records (some k) plan_id new_month db' = refl

  Reassigns-IsUnique :
      {out : Result BillingRecord × Db}
      → KeysDiffer db.records
      → BelongTo r.pk r.member_id db.records
      → IsUnique db.records
      → Reassigns r plan month today db out
      → IsUnique out.1.records
  Reassigns-IsUnique d b u (refused x) = u
  Reassigns-IsUnique d b u (moves new_month count h k m c) =
      let new = moved r plan month today db new_month count in
      rw
        (synced-records r.agreement_id plan.pk new_month
          (save_record r.pk (copy_reassigned new) db))
        (update-IsUnique new db.records c d b u)

  -- Where the keys differ and the rows of the record's key are its member's, a reassignment keeps
  -- one record for each member and season.
  pub reassign-IsUnique :
      KeysDiffer db.records
      → BelongTo r.pk r.member_id db.records
      → IsUnique db.records
      → IsUnique (reassign_draft_billing_record r plan month today db).1.records
  reassign-IsUnique d b u = Reassigns-IsUnique d b u (reassign-Reassigns r plan month today db)
