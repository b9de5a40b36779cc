-- ===== src/Agreements/Signed.antt =====
-- `mark_agreement_signed` and `void_agreement` of apps/agreements/services.py.
use fk_cesis_mms.Base.{ℕ, Bool, true, false, not, Option, none, some, List, if◌then◌else◌}
use fk_cesis_mms.Base.Text.{Text, codes, is_blank, before_first, int}
use fk_cesis_mms.Errors as Errors
use fk_cesis_mms.Errors.{
  Result, ok, err, re_raise, cannot_mark_sent, cannot_mark_signed, billing_plan_required,
  first_billing_month_required, billing_plan_inactive, next_year_plan_required, not_an_int,
  does_not_exist,
}
use fk_cesis_mms.Models.{
  Agreement, AgreementState, generated, sent, signed, void, Actor, signed_mail, void_mail,
  archive_submission, agreement_signed, agreement_voided, find_plan,
}
use fk_cesis_mms.Models.Action.{Action, ◌>>=◌, ◌>>◌, pure, lift, modify}
use fk_cesis_mms.Billing.Plan.{MembershipPlan}
use fk_cesis_mms.Billing.Month.{normalize_first_billing_month, plan_season_start_year}
use fk_cesis_mms.Billing.Store.{add_audit}
use fk_cesis_mms.Billing.Reassign.{is_year}
use fk_cesis_mms.Billing.Draft.{create_draft_billing_for_member}
use fk_cesis_mms.Agreements.Number.{save_agreement}
use fk_cesis_mms.Agreements.Create.{is_void}
use fk_cesis_mms.Agreements.Signing.{member_of, deliver, send_agreement_email}

abbrev pub is_signable : AgreementState → Bool
is_signable generated = true
is_signable sent = true
is_signable _ = false

-- The last guards of `mark_agreement_signed`.
unfoldable pub check_month_of : MembershipPlan → Text → Result (Unit {0})
check_month_of plan month =
    Errors.◌>>=◌
      (re_raise
        (Errors.◌>>=◌ (plan_season_start_year plan) λ (season_year : ℕ).
          Errors.◌>>=◌ (normalize_first_billing_month plan month)
            λ (normalized : Text). ok (season_year, normalized))
        next_year_plan_required)
      λ (season_year, normalized).
        Errors.◌>>=◌ (Errors.or_raise (int (before_first b'-' normalized)) not_an_int)
          λ year. Errors.raise_if (not (is_year year season_year)) next_year_plan_required

-- All guards of `mark_agreement_signed`.
unfoldable pub signing_guards : List MembershipPlan → Agreement → Result (Unit {0})
signing_guards plans a =
    Errors.◌>>◌ (Errors.raise_if (not (is_signable a.state)) cannot_mark_signed) (
      Errors.◌>>=◌ (Errors.or_raise a.billing_plan_id billing_plan_required) λ (plan_id : ℕ).
        Errors.◌>>◌ (Errors.raise_if (is_blank a.first_billing_month) first_billing_month_required)
          (Errors.◌>>=◌ (Errors.or_raise (find_plan plan_id plans) does_not_exist)
            λ (plan : MembershipPlan).
              Errors.◌>>◌ (Errors.raise_if (not plan.is_active) billing_plan_inactive)
                (check_month_of plan a.first_billing_month)))

abbrev pub as_signed : ℕ → Agreement → Agreement
as_signed now a = record a { state = signed; signed_at = some now }

-- `_label_for` of apps/core/audit.py.
abbrev pub label_for : Actor → Text
label_for actor = if is_blank actor.email then actor.username else actor.email

-- The label of the audit row of a signature.
abbrev pub signer_label : Option Actor → Text
signer_label none = codes "system: docuseal_webhook"
signer_label (some actor) = label_for actor

-- `on_agreement_signed` of apps/billing/signals.py, which the signal calls.
unfoldable pub on_agreement_signed : Bool → Agreement → Action (Unit {0})
on_agreement_signed nulls_last a = do
  member ← member_of a
  _ ← create_draft_billing_for_member nulls_last member (some a)
  pure tt

-- What follows the save of a signed agreement.
unfoldable pub announce_signed : Bool → Agreement → Option Actor → Action (Unit {0})
announce_signed nulls_last a actor = do
  modify (add_audit (agreement_signed a.pk (signer_label actor)))
  send_agreement_email a signed_mail
  on_agreement_signed nulls_last a

-- `mark_agreement_signed`
unfoldable pub mark_agreement_signed : Bool → Agreement → Option Actor → ℕ → Action Agreement
mark_agreement_signed nulls_last a actor now = do
  (λ db. lift (signing_guards db.plans a) db)
  modify (save_agreement a.pk (as_signed now))
  announce_signed nulls_last (as_signed now a) actor
  pure (as_signed now a)

abbrev pub as_void : ℕ → Text → Agreement → Agreement
as_void now reason a = record a { state = void; voided_at = some now; void_reason = reason }

-- What follows the save of a voided agreement.
unfoldable pub announce_void : Agreement → Action (Unit {0})
announce_void a = do
  modify (add_audit (agreement_voided a.pk))
  send_agreement_email a void_mail
  if is_blank a.external_id then pure tt else deliver (archive_submission a.external_id)

-- `void_agreement`
unfoldable pub void_agreement : Agreement → Text → ℕ → Action Agreement
void_agreement a reason now = if is_void a.state then pure a else (do
  modify (save_agreement a.pk (as_void now reason))
  announce_void (as_void now reason a)
  pure (as_void now reason a))
