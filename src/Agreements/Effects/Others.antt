-- ===== src/Agreements/Effects/Others.antt =====
-- The billing setup, the sync of the signing path, amendments, and the end of a participation.
use fk_cesis_mms.Base.{
  ℕ, ◌≡◌, refl, true, false, ◌&&◌, Option, none, some, arith, Bool-cases, Option-cases, inl, inr,
}
use fk_cesis_mms.Base.Text.{Text, text_eq}
use fk_cesis_mms.Errors.{Error, ok, err, Result-cases}
use fk_cesis_mms.Models.{Agreement, SigningPath, Actor, Db, find_agreement, billing_plan_assigned}
use fk_cesis_mms.Models.Action.{◌>>◌, modify, pure}
use fk_cesis_mms.Billing.Calendar.{Date}
use fk_cesis_mms.Billing.Plan.{MembershipPlan}
use fk_cesis_mms.Billing.Store.{current_agreement, add_audit}
use fk_cesis_mms.Agreements.Clock.{Clock}
use fk_cesis_mms.Agreements.Number.{save_agreement}
use fk_cesis_mms.Agreements.Signing.{path_eq, with_path, sync_application_signing_path_to_agreement}
use fk_cesis_mms.Agreements.Setup.{
  check_setup, with_setup, same_plan, write_setup, set_billing_setup,
}
use fk_cesis_mms.Agreements.Amend.{is_signed, record_minor_amendment}
use fk_cesis_mms.Agreements.States.{later_refl}
use fk_cesis_mms.Agreements.Rows.Distinct.{Distinct}
use fk_cesis_mms.Agreements.Rows.Evolves.{Evolves, keeps}
use fk_cesis_mms.Agreements.Rows.Current.{current-stored}
use fk_cesis_mms.Agreements.Rows.Quiet.{pure-Quiet, finally-Quiet, add_audit-Quiet}
use fk_cesis_mms.Agreements.Effects.Save.{saved-Evolves}
use fk_cesis_mms.Agreements.Effects.Signing.{path-Succeeds}

module _ (clock : Clock) (prefix : Text) (db : Db) where
  sync-Evolves-saved :
      (m : ℕ) (a : Agreement) (path : SigningPath)
      → Distinct db.agreements
      → current_agreement m db.agreements ≡ some a
      → Evolves clock prefix db (save_agreement a.pk (with_path path) db)
  sync-Evolves-saved m a path d h =
      saved-Evolves clock prefix {m = pure tt} db a.pk (with_path path) a (pure-Quiet tt) d
        (current-stored m db.agreements a d h) (path-Succeeds a path)

  sync-new :
      (m : ℕ) (a : Agreement) (path : SigningPath)
      → current_agreement m db.agreements ≡ some a
      → path_eq a.signing_path path ≡ false
      → sync_application_signing_path_to_agreement (some m) (some path) db
        ≡ (ok tt, save_agreement a.pk (with_path path) db)
  unfolding sync_application_signing_path_to_agreement
  sync-new m a path h e = ground (arith, h, e)

  sync-same :
      (m : ℕ) (a : Agreement) (path : SigningPath)
      → current_agreement m db.agreements ≡ some a
      → path_eq a.signing_path path ≡ true
      → sync_application_signing_path_to_agreement (some m) (some path) db ≡ (ok tt, db)
  unfolding sync_application_signing_path_to_agreement
  sync-same m a path h e = ground (arith, h, e)

  sync-blank : (m : ℕ) → sync_application_signing_path_to_agreement (some m) none db ≡ (ok tt, db)
  unfolding sync_application_signing_path_to_agreement
  sync-blank m = elim (Option-cases (current_agreement m db.agreements)) [
    | inl h ↦ ground (arith, h)
    | inr (a, h) ↦ ground (arith, h)
  ]

  sync-missing :
      (m : ℕ) (path : SigningPath)
      → current_agreement m db.agreements ≡ none
      → sync_application_signing_path_to_agreement (some m) (some path) db ≡ (ok tt, db)
  unfolding sync_application_signing_path_to_agreement
  sync-missing m path h = ground (arith, h)

  sync-member :
      (preference : Option SigningPath)
      → sync_application_signing_path_to_agreement none preference db ≡ (ok tt, db)
  unfolding sync_application_signing_path_to_agreement
  sync-member preference = refl

  pub sync-Evolves :
      (member_id : Option ℕ) (preference : Option SigningPath)
      → Distinct db.agreements
      → Evolves clock prefix db
          (sync_application_signing_path_to_agreement member_id preference db).1
  sync-Evolves none preference d = rw (sync-member preference) (keeps refl (omega arith))
  sync-Evolves (some m) none d = rw (sync-blank m) (keeps refl (omega arith))
  sync-Evolves (some m) (some path) d = elim (Option-cases (current_agreement m db.agreements)) [
    | inl h ↦ rw (sync-missing m path h) (keeps refl (omega arith))
    | inr (a, h) ↦ elim (Bool-cases (path_eq a.signing_path path)) [
      | inl e ↦ rw (sync-same m a path h e) (keeps refl (omega arith))
      | inr e ↦ rw (sync-new m a path h e) (sync-Evolves-saved m a path d h)
    ]
  ]

module _ (a : Agreement) (db : Db) where
  pub setup-refused :
      (plan : MembershipPlan) (month : Text) (today : Date) (e : Error)
      → check_setup a plan month today ≡ err e
      → set_billing_setup a plan month today db ≡ (err e, db)
  unfolding set_billing_setup
  setup-refused plan month today e h = ground (arith, h)

  pub setup-passed :
      (plan : MembershipPlan) (month : Text) (today : Date) (out : Text × ℕ)
      → check_setup a plan month today ≡ ok out
      → set_billing_setup a plan month today db ≡ write_setup a plan out.0 out.1 db
  unfolding set_billing_setup
  setup-passed plan month today out h = ground (arith, h)

  pub setup-new :
      (plan : MembershipPlan) (month : Text) (count : ℕ)
      → (same_plan a.billing_plan_id plan.pk && text_eq a.first_billing_month month) ≡ false
      → write_setup a plan month count db
        ≡ (modify (
                add_audit (
                  billing_plan_assigned a.pk a.billing_plan_id plan.pk a.first_billing_month month
                    count))
              >> pure (with_setup plan.pk month a))
            (save_agreement a.pk (with_setup plan.pk month) db)
  unfolding write_setup
  setup-new plan month count h = rw h refl

  pub setup-same :
      (plan : MembershipPlan) (month : Text) (count : ℕ)
      → (same_plan a.billing_plan_id plan.pk && text_eq a.first_billing_month month) ≡ true
      → write_setup a plan month count db ≡ (ok a, db)
  unfolding write_setup
  setup-same plan month count h = rw h refl

module _ (clock : Clock) (prefix : Text) (a : Agreement) (db : Db) (d : Distinct db.agreements)
    (found : find_agreement a.pk db.agreements ≡ some a) where
  write-Evolves :
      (plan : MembershipPlan) (month : Text) (count : ℕ)
      → Evolves clock prefix db (write_setup a plan month count db).1
  write-Evolves plan month count =
      elim (Bool-cases
        (same_plan a.billing_plan_id plan.pk && text_eq a.first_billing_month month)) [
          | inl h ↦ rw (setup-same a db plan month count h) (keeps refl (omega arith))
          | inr h ↦ rw (setup-new a db plan month count h) (
              saved-Evolves clock prefix db a.pk (with_setup plan.pk month) a
                (finally-Quiet (with_setup plan.pk month a) (
                  add_audit-Quiet (
                    billing_plan_assigned a.pk a.billing_plan_id plan.pk a.first_billing_month month
                      count)))
                d found (refl, refl, refl, refl, later_refl a.state, inl refl))
        ]

  pub setup-Evolves :
      (plan : MembershipPlan) (month : Text) (today : Date)
      → Evolves clock prefix db (set_billing_setup a plan month today db).1
  setup-Evolves plan month today = elim (Result-cases (check_setup a plan month today)) [
    | inr (e, h) ↦ rw (setup-refused a db plan month today e h) (keeps refl (omega arith))
    | inl (out, h) ↦ rw (setup-passed a db plan month today out h) (write-Evolves plan out.0 out.1)
  ]

  pub minor-Evolves :
      (actor : Option Actor) (note : Text)
      → Evolves clock prefix db (record_minor_amendment a actor note db).1
  unfolding record_minor_amendment
  minor-Evolves actor note = elim (Bool-cases (is_signed a.state)) [
    | inl e ↦ rw e (keeps refl (omega arith))
    | inr e ↦ rw e (keeps refl (omega arith))
  ]
