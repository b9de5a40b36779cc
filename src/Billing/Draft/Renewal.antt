-- ===== src/Billing/Draft/Renewal.antt =====
-- Renewals: one record for each member and season, and a second call that skips.
use fk_cesis_mms.Base.{
  ◌≡◌, refl, Bool, true, false, Option, none, some, arith, inl, inr, Option-cases, ==_refl,
}
use fk_cesis_mms.Base.Text.{Text}
use fk_cesis_mms.Errors.{Error, Result, ok, err, Result-cases}
use fk_cesis_mms.Models.{Member, BillingRecord, Db, billing_record_renewed}
use fk_cesis_mms.Models.Action.{atomic, Unchanged}
use fk_cesis_mms.Billing.Plan.{MembershipPlan}
use fk_cesis_mms.Billing.Money.{BillingAmounts}
use fk_cesis_mms.Billing.Family.{tiered_billing_amounts, member_opted_out}
use fk_cesis_mms.Billing.Store.{
  find_for, is_for, add_record, add_audit, new_record, current_agreement, payment_mode_of,
}
use fk_cesis_mms.Billing.Store.Unique.{IsUnique, find_for-none, append-IsUnique}
use fk_cesis_mms.Billing.Draft.{agreement_pk, check_month, renew_in_season, renew_member_billing}
use fk_cesis_mms.Billing.Draft.Laws.{text_eq_refl, find_for-append}

module _ (n : Bool) (member : Member) (plan : MembershipPlan) (month : Text) (db : Db) where
  -- The record that a renewal adds.
  abbrev pub renewed : BillingAmounts → BillingRecord
  renewed amounts =
      new_record db.next_pk member plan (agreement_pk (current_agreement member.pk db.agreements))
        amounts (payment_mode_of member) (member_opted_out member) month none

  abbrev pub renewed_db : BillingAmounts → Db
  renewed_db amounts =
      add_audit (billing_record_renewed db.next_pk plan.pk plan.season month)
        (add_record (renewed amounts) db)

  pub data Renews : Result (Option BillingRecord) × Db → Type 0 where
    refused : (e : Error) → Renews (err e, db)
    skips :
        (r : BillingRecord)
        → (check_month month db).0 ≡ ok tt
        → find_for member.pk plan.season db.records ≡ some r
        → Renews (ok none, db)
    renews :
        (amounts : BillingAmounts)
        → (check_month month db).0 ≡ ok tt
        → find_for member.pk plan.season db.records ≡ none
        → tiered_billing_amounts n db member plan month false none ≡ ok amounts
        → Renews (ok (some (renewed amounts)), renewed_db amounts)

  check-same : (check_month month db).1 ≡ db
  check-same = ground arith

  renew-bad_month :
      (e : Error)
      → (check_month month db).0 ≡ err e
      → renew_member_billing n member plan month db ≡ (err e, db)
  unfolding renew_member_billing
  renew-bad_month e h = ground (arith, check-same)

  pub renew-skips :
      (r : BillingRecord)
      → (check_month month db).0 ≡ ok tt
      → find_for member.pk plan.season db.records ≡ some r
      → renew_member_billing n member plan month db ≡ (ok none, db)
  unfolding renew_member_billing renew_in_season atomic
  renew-skips r h found = ground (arith, check-same)

  renew-failed :
      (e : Error)
      → (check_month month db).0 ≡ ok tt
      → find_for member.pk plan.season db.records ≡ none
      → tiered_billing_amounts n db member plan month false none ≡ err e
      → renew_member_billing n member plan month db ≡ (err e, db)
  unfolding renew_member_billing renew_in_season atomic
  renew-failed e h missing made = ground (arith, check-same)

  renew-renews :
      (amounts : BillingAmounts)
      → (check_month month db).0 ≡ ok tt
      → find_for member.pk plan.season db.records ≡ none
      → tiered_billing_amounts n db member plan month false none ≡ ok amounts
      → renew_member_billing n member plan month db
        ≡ (ok (some (renewed amounts)), renewed_db amounts)
  unfolding renew_member_billing renew_in_season atomic
  renew-renews amounts h missing made = ground (arith, check-same)

  checked-Renews :
      (check_month month db).0 ≡ ok tt → Renews (renew_member_billing n member plan month db)
  checked-Renews h = elim (Option-cases (find_for member.pk plan.season db.records)) [
    | inr (r, found) ↦ rw (renew-skips r h found) (skips r h found)
    | inl missing ↦ elim (Result-cases (tiered_billing_amounts n db member plan month false none)) [
      | inl (amounts, made) ↦
          rw (renew-renews amounts h missing made) (renews amounts h missing made)
      | inr (e, made) ↦ rw (renew-failed e h missing made) (refused e)
    ]
  ]

  renew-Renews : Renews (renew_member_billing n member plan month db)
  renew-Renews = elim (Result-cases ((check_month month db).0)) [
    | inl (u, h) ↦ checked-Renews h
    | inr (e, h) ↦ rw (renew-bad_month e h) (refused e)
  ]

  Renews-IsUnique :
      {out : Result (Option BillingRecord) × Db}
      → IsUnique db.records
      → Renews out
      → IsUnique out.1.records
  Renews-IsUnique u (refused e) = u
  Renews-IsUnique u (skips r h found) = u
  Renews-IsUnique u (renews amounts h missing made) =
      append-IsUnique db.records (renewed amounts) u
        (find_for-none member.pk plan.season db.records missing)

  -- A renewal keeps one record for each member and season.
  pub renew-IsUnique :
      IsUnique db.records → IsUnique (renew_member_billing n member plan month db).1.records
  renew-IsUnique u = Renews-IsUnique u renew-Renews

  Renews-Unchanged : {out : Result (Option BillingRecord) × Db} → Renews out → Unchanged db out
  Renews-Unchanged (refused e) = refl
  Renews-Unchanged (skips r h found) = tt
  Renews-Unchanged (renews amounts h missing made) = tt

  -- A renewal that raises has changed nothing.
  pub renew-Unchanged : Unchanged db (renew_member_billing n member plan month db)
  renew-Unchanged = Renews-Unchanged renew-Renews

module _ (n : Bool) (member : Member) (plan : MembershipPlan) (month : Text) (db : Db) where
  check-again : (db' : Db) → (check_month month db).0 ≡ ok tt → (check_month month db').0 ≡ ok tt
  check-again db' h = ground (arith, h)

  Renews-again :
      {out : Result (Option BillingRecord) × Db} (made : Option BillingRecord)
      → Renews n member plan month db out
      → out.0 ≡ ok made
      → renew_member_billing n member plan month out.1 ≡ (ok none, out.1)
  Renews-again made (refused e) is = absurd (cc)
  Renews-again made (skips r h found) is = renew-skips n member plan month db r h found
  Renews-again made (renews amounts h missing tier) is =
      let r = renewed n member plan month db amounts in
      let db' = renewed_db n member plan month db amounts in
      let own : is_for member.pk plan.season r ≡ true =
        rw (==_refl member.pk, text_eq_refl plan.season) in
      renew-skips n member plan month db' r (check-again db' h)
        (find_for-append member.pk plan.season db.records r missing own)

  -- After a renewal that returned, another one of the season returns nothing and changes nothing.
  pub renew_again :
      (made : Option BillingRecord)
      → (renew_member_billing n member plan month db).0 ≡ ok made
      → let db' = (renew_member_billing n member plan month db).1 in
        renew_member_billing n member plan month db' ≡ (ok none, db')
  renew_again made is = Renews-again made (renew-Renews n member plan month db) is
