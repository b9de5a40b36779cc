-- ===== src/Agreements/Setup.antt =====
-- `set_billing_setup` of apps/agreements/services.py.
use fk_cesis_mms.Base.{ℕ, Bool, true, false, not, ◌&&◌, Option, none, some, ◌==◌, if◌then◌else◌}
use fk_cesis_mms.Base.Text.{Text, is_blank, text_eq, text_lt, before_first, int}
use fk_cesis_mms.Errors.{
  Result, ok, ◌>>=◌, ◌>>◌, or_raise, raise_if, setup_locked, first_billing_month_required,
  billing_plan_inactive, month_before_default, next_year_plan_required, not_an_int,
}
use fk_cesis_mms.Models.{
  Agreement, AgreementState, signed, superseded, discontinued, billing_plan_assigned,
}
use fk_cesis_mms.Models.Action as Action
use fk_cesis_mms.Models.Action.{Action, modify, pure, lift}
use fk_cesis_mms.Billing.Calendar.{Date}
use fk_cesis_mms.Billing.Plan.{MembershipPlan}
use fk_cesis_mms.Billing.Month.{
  parse_first_billing_month, normalize_first_billing_month, plan_season_start_year,
  derive_first_billing_month,
}
use fk_cesis_mms.Billing.Schedule.{count_calendar_year_billable_installments}
use fk_cesis_mms.Billing.Store.{add_audit}
use fk_cesis_mms.Billing.Reassign.{is_year}
use fk_cesis_mms.Agreements.Number.{save_agreement}

-- The states whose billing is settled.
abbrev pub is_locked : AgreementState → Bool
is_locked signed = true
is_locked superseded = true
is_locked discontinued = true
is_locked _ = false

-- The checks on the month, which give the normalized month and the installments of its calendar
-- year.
unfoldable pub check_setup_month : MembershipPlan → Text → Date → Result (Text × ℕ)
check_setup_month plan month today = do
  parsed ← parse_first_billing_month month
  normalized ← normalize_first_billing_month plan month
  raise_if (text_lt normalized (derive_first_billing_month plan today)) month_before_default
  season_year ← plan_season_start_year plan
  year ← or_raise (int (before_first b'-' normalized)) not_an_int
  raise_if (not (is_year year season_year)) next_year_plan_required
  count ← count_calendar_year_billable_installments plan normalized
  ok (normalized, count)

-- All that comes before a write.
unfoldable pub check_setup : Agreement → MembershipPlan → Text → Date → Result (Text × ℕ)
check_setup a plan month today = do
  raise_if (is_locked a.state) setup_locked
  raise_if (is_blank month) first_billing_month_required
  raise_if (not plan.is_active) billing_plan_inactive
  check_setup_month plan month today

abbrev pub same_plan : Option ℕ → ℕ → Bool
same_plan none k = false
same_plan (some j) k = j == k

abbrev pub with_setup : ℕ → Text → Agreement → Agreement
with_setup plan_id month a = record a {
  billing_plan_id = some plan_id;
  first_billing_month = month;
}

-- The write, if the values are new.
unfoldable pub write_setup : Agreement → MembershipPlan → Text → ℕ → Action Agreement
write_setup a plan month count =
    if same_plan a.billing_plan_id plan.pk && text_eq a.first_billing_month month
    then pure a
    else Action.◌>>◌ (modify (save_agreement a.pk (with_setup plan.pk month))) (
        Action.◌>>◌
          (modify (
            add_audit (
              billing_plan_assigned a.pk a.billing_plan_id plan.pk a.first_billing_month month
                count)))
          (pure (with_setup plan.pk month a)))

unfoldable pub set_billing_setup : Agreement → MembershipPlan → Text → Date → Action Agreement
set_billing_setup a plan month today =
    Action.◌>>=◌ (lift (check_setup a plan month today))
      λ (normalized, count). write_setup a plan normalized count
