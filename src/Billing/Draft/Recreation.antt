-- ===== src/Billing/Draft/Recreation.antt =====
-- The recreation of a missing record.
use fk_cesis_mms.Base.{
  ℕ, ◌≡◌, refl, ap, ◌∙◌, not, Bool, true, false, ◌||◌, Option, none, some, List, [], ◌∷◌, arith,
  inl, inr, Option-cases, Bool-cases, ◌==◌, ==_iff,
}
use fk_cesis_mms.Base.Text.{Text}
use fk_cesis_mms.Errors.{
  Error, Result, ok, err, confirmation_required, signed_agreement_required, billing_plan_required,
  record_exists, does_not_exist,
}
use fk_cesis_mms.Models.{
  Member, Agreement, AgreementState, generated, sent, signed, void, superseded, discontinued,
  BillingRecord, draft, Db, find_plan, billing_record_recreated,
}
use fk_cesis_mms.Models.Action.{atomic}
use fk_cesis_mms.Billing.Plan.{MembershipPlan}
use fk_cesis_mms.Billing.Money.{BillingAmounts}
use fk_cesis_mms.Billing.Store.{find_for, add_record, add_audit}
use fk_cesis_mms.Billing.Store.Unique.{IsUnique, find_for-none, append-IsUnique}
use fk_cesis_mms.Billing.Draft.{
  is_signed, plan_for, draft_amounts, recreate_block, recreate_missing_billing_record,
}
use fk_cesis_mms.Billing.Draft.Outcome.{draft_record}
use fk_cesis_mms.Billing.Draft.Block.{Makes, fails, makes, block-Makes}

module _ (n : Bool) (member : Member) (db : Db) where
  abbrev pub recreated_db : Agreement → Text → BillingRecord → Db
  recreated_db a season r =
      add_audit (billing_record_recreated r.pk a.billing_plan_id season) (add_record r db)

  -- The fields of the record: whose it is and for what, its amounts, and that it is a draft with
  -- nothing paid and no invoice.
  abbrev pub IsDraftFor :
      Agreement → MembershipPlan → BillingAmounts → Option ℕ → BillingRecord → Type 0
  IsDraftFor a p amounts scheduled r =
      (r.pk ≡ db.next_pk)
      × (r.member_id ≡ member.pk)
      × (r.plan_id ≡ p.pk)
      × (r.agreement_id ≡ some a.pk)
      × (r.season ≡ p.season)
      × (r.base_amount ≡ amounts.base_amount)
      × (r.discount_amount ≡ amounts.discount_amount)
      × (r.final_amount ≡ amounts.final_amount)
      × (r.first_billing_month ≡ a.first_billing_month)
      × (r.scheduled_installment_count ≡ scheduled)
      × (r.status ≡ draft)
      × (r.payment_status ≡ none)
      × (r.invoices ≡ [])

  -- What a call does: it raises and has changed nothing, or it adds one record for the signed
  -- agreement, with the confirmation.
  pub data Recreates (agreement : Option Agreement) (confirmed_absent : Bool)
      : Result BillingRecord × Db → Type 0 where
    refused : (e : Error) → Recreates agreement confirmed_absent (err e, db)
    recreates :
        (a : Agreement) (p : MembershipPlan) (r : BillingRecord)
        → agreement ≡ some a
        → confirmed_absent ≡ true
        → a.state ≡ signed
        → a.member_id ≡ member.pk
        → a.billing_plan_id ≡ some p.pk
        → find_plan p.pk db.plans ≡ some p
        → find_for member.pk p.season db.records ≡ none
        → (amounts : BillingAmounts) (scheduled : Option ℕ)
        → draft_amounts n db member p (some a) a.first_billing_month ≡ ok (amounts, scheduled)
        → r ≡ draft_record n member p (some a) a.first_billing_month db amounts scheduled
        → IsDraftFor a p amounts scheduled r
        → Recreates agreement confirmed_absent (ok r, recreated_db a p.season r)

  audited : Agreement → Text → Result BillingRecord × Db → Result BillingRecord × Db
  audited a season (err e, db') = (err e, db')
  audited a season (ok r, db') =
      (ok r, add_audit (billing_record_recreated r.pk a.billing_plan_id season) db')

  recreate-eq :
      (a : Agreement) (plan_id : ℕ) (p : MembershipPlan)
      → a.state ≡ signed
      → (a.member_id == member.pk) ≡ true
      → a.billing_plan_id ≡ some plan_id
      → find_plan plan_id db.plans ≡ some p
      → find_for member.pk p.season db.records ≡ none
      → recreate_missing_billing_record n member (some a) true db
        ≡ audited a p.season (atomic (recreate_block n member a) db)
  unfolding recreate_missing_billing_record audited
  recreate-eq a plan_id p s m k found missing = go (atomic (recreate_block n member a) db) refl
    where
      go :
          (out : Result BillingRecord × Db)
          → atomic (recreate_block n member a) db ≡ out
          → recreate_missing_billing_record n member (some a) true db
            ≡ audited a p.season (atomic (recreate_block n member a) db)
      go (err e, db') h = ground arith
      go (ok r, db') h = ground arith

  recreate-unconfirmed :
      (agreement : Option Agreement)
      → recreate_missing_billing_record n member agreement false db
        ≡ (err confirmation_required, db)
  unfolding recreate_missing_billing_record
  recreate-unconfirmed agreement = ground arith

  recreate-no_agreement :
      recreate_missing_billing_record n member none true db ≡ (err signed_agreement_required, db)
  unfolding recreate_missing_billing_record
  recreate-no_agreement = ground arith

  recreate-not_signed :
      (a : Agreement)
      → not (is_signed a.state) || not (a.member_id == member.pk) ≡ true
      → recreate_missing_billing_record n member (some a) true db
        ≡ (err signed_agreement_required, db)
  unfolding recreate_missing_billing_record
  recreate-not_signed a h = ground (arith, h)

  module _ (a : Agreement)
      (h : not (is_signed a.state) || not (a.member_id == member.pk) ≡ false) where
    recreate-no_plan_id :
        a.billing_plan_id ≡ none
        → recreate_missing_billing_record n member (some a) true db
          ≡ (err billing_plan_required, db)
    unfolding recreate_missing_billing_record
    recreate-no_plan_id k = ground (arith, h)

    recreate-lost_plan :
        (plan_id : ℕ)
        → a.billing_plan_id ≡ some plan_id
        → find_plan plan_id db.plans ≡ none
        → recreate_missing_billing_record n member (some a) true db ≡ (err does_not_exist, db)
    unfolding recreate_missing_billing_record
    recreate-lost_plan plan_id k lost = ground (arith, h)

    recreate-exists :
        (plan_id : ℕ) (p : MembershipPlan) (r : BillingRecord)
        → a.billing_plan_id ≡ some plan_id
        → find_plan plan_id db.plans ≡ some p
        → find_for member.pk p.season db.records ≡ some r
        → recreate_missing_billing_record n member (some a) true db ≡ (err record_exists, db)
    unfolding recreate_missing_billing_record
    recreate-exists plan_id p r k found old = ground (arith, h)

  find_plan-pk :
      (k : ℕ) (plans : List MembershipPlan) (p : MembershipPlan)
      → find_plan k plans ≡ some p
      → p.pk ≡ k
  find_plan-pk k [] p h = absurd (cc)
  find_plan-pk k (x ∷ plans) p h = ground (arith, find_plan-pk k plans p)

  plan_for-plan :
      (a : Agreement) (plan_id : ℕ) (p : MembershipPlan)
      → a.billing_plan_id ≡ some plan_id
      → find_plan plan_id db.plans ≡ some p
      → plan_for db.plans (some a) ≡ ok (some p)
  unfolding plan_for
  plan_for-plan a plan_id p h found = ground arith

  audited-Recreates :
      (a : Agreement) (p : MembershipPlan) {out : Result BillingRecord × Db}
      → a.state ≡ signed
      → a.member_id ≡ member.pk
      → a.billing_plan_id ≡ some p.pk
      → find_plan p.pk db.plans ≡ some p
      → plan_for db.plans (some a) ≡ ok (some p)
      → Makes n member a db out
      → Recreates (some a) true (audited a p.season out)
  unfolding audited
  audited-Recreates a p s m k stored planned (fails e) = refused e
  audited-Recreates a p s m k stored planned (makes p' amounts scheduled h missing drawn) =
      let same : p' ≡ p = cc in
      let shown = rw same at missing in
      let priced = rw same at drawn in
      rw same (
        recreates a p (draft_record n member p (some a) a.first_billing_month db amounts scheduled)
          refl refl s m k stored shown amounts scheduled priced refl
          (refl, refl, refl, refl, refl, refl, refl, refl, refl, refl, refl, refl, refl))

  is_signed-signed : (state : AgreementState) → is_signed state ≡ true → state ≡ signed
  is_signed-signed signed h = refl
  is_signed-signed generated h = absurd (cc)
  is_signed-signed sent h = absurd (cc)
  is_signed-signed void h = absurd (cc)
  is_signed-signed superseded h = absurd (cc)
  is_signed-signed discontinued h = absurd (cc)

  planned-Recreates :
      (a : Agreement) (plan_id : ℕ) (p : MembershipPlan)
      → not (is_signed a.state) || not (a.member_id == member.pk) ≡ false
      → a.billing_plan_id ≡ some plan_id
      → find_plan plan_id db.plans ≡ some p
      → Recreates (some a) true (recreate_missing_billing_record n member (some a) true db)
  planned-Recreates a plan_id p h k found =
      elim (Option-cases (find_for member.pk p.season db.records)) [
        | inr (r, old) ↦ rw (recreate-exists a h plan_id p r k found old) (refused record_exists)
        | inl missing ↦
            let s : is_signed a.state ≡ true = ground (arith, h) in
            let m : (a.member_id == member.pk) ≡ true = ground (arith, h) in
            let key = find_plan-pk plan_id db.plans p found in
            rw (recreate-eq a plan_id p (is_signed-signed a.state s) m k found missing) (
              audited-Recreates a p (is_signed-signed a.state s)
                ((==_iff a.member_id member.pk).0 m) (rw key k)
                (ap (λ j. find_plan j db.plans) key ∙ found) (plan_for-plan a plan_id p k found)
                (block-Makes n member a db))
      ]

  signed-Recreates :
      (a : Agreement)
      → not (is_signed a.state) || not (a.member_id == member.pk) ≡ false
      → Recreates (some a) true (recreate_missing_billing_record n member (some a) true db)
  signed-Recreates a h = elim (Option-cases a.billing_plan_id) [
    | inl k ↦ rw (recreate-no_plan_id a h k) (refused billing_plan_required)
    | inr (plan_id, k) ↦ elim (Option-cases (find_plan plan_id db.plans)) [
      | inl lost ↦ rw (recreate-lost_plan a h plan_id k lost) (refused does_not_exist)
      | inr (p, found) ↦ planned-Recreates a plan_id p h k found
    ]
  ]

  -- A recreation raises and has changed nothing, or, with the confirmation, it adds one record for
  -- the member's signed agreement and the season of its stored plan, for which there was no record,
  -- and notes that in the audit log. The record refers to the member, the plan and the agreement,
  -- is a draft with nothing paid and no invoice, and has the agreement's month and the amounts of a
  -- draft.
  pub recreate-Recreates :
      (agreement : Option Agreement) (confirmed_absent : Bool)
      → Recreates agreement confirmed_absent
          (recreate_missing_billing_record n member agreement confirmed_absent db)
  recreate-Recreates agreement false =
      rw (recreate-unconfirmed agreement) (refused confirmation_required)
  recreate-Recreates none true = rw recreate-no_agreement (refused signed_agreement_required)
  recreate-Recreates (some a) true =
      elim (Bool-cases (not (is_signed a.state) || not (a.member_id == member.pk))) [
        | inl h ↦ rw (recreate-not_signed a h) (refused signed_agreement_required)
        | inr h ↦ signed-Recreates a h
      ]

  Recreates-IsUnique :
      (agreement : Option Agreement) (confirmed_absent : Bool) {out : Result BillingRecord × Db}
      → IsUnique db.records
      → Recreates agreement confirmed_absent out
      → IsUnique out.1.records
  Recreates-IsUnique agreement confirmed_absent u (refused e) = u
  Recreates-IsUnique agreement confirmed_absent u
        (recreates a p r same c s m k stored missing amounts scheduled priced is fields) =
      let new = draft_record n member p (some a) a.first_billing_month db amounts scheduled in
      rw is (append-IsUnique db.records new u (find_for-none member.pk p.season db.records missing))

  -- A recreation keeps one record for each member and season.
  pub recreate-IsUnique :
      (agreement : Option Agreement) (confirmed_absent : Bool)
      → IsUnique db.records
      → IsUnique (recreate_missing_billing_record n member agreement confirmed_absent db).1.records
  recreate-IsUnique agreement confirmed_absent u =
      Recreates-IsUnique agreement confirmed_absent u
        (recreate-Recreates agreement confirmed_absent)
