-- ===== src/Billing/Draft.antt =====
-- The services of apps/billing/services.py that create billing records: drafts at signing,
-- renewals, and the recreation of a missing record.
pub mod Laws
pub mod Outcome
pub mod Renewal
pub mod Block
pub mod Recreation
use fk_cesis_mms.Base.{
  ℕ, Bool, true, false, not, ◌||◌, Option, none, some, List, [], ◌==◌, if◌then◌else◌, is_some,
}
use fk_cesis_mms.Base.Int.{ℤ, pos}
use fk_cesis_mms.Base.Text.{Text, is_blank}
use fk_cesis_mms.Errors as Errors
use fk_cesis_mms.Errors.{
  Result, ok, err, does_not_exist, confirmation_required, signed_agreement_required,
  billing_plan_required, record_exists, no_plan,
}
use fk_cesis_mms.Models.{
  Member, Agreement, AgreementState, signed, BillingRecord, billing_record_renewed,
  billing_record_recreated, Db, find_plan,
}
use fk_cesis_mms.Models.Action.{
  Action, ◌>>=◌, ◌>>◌, pure, gets, lift, or_raise, atomic, raise_if, modify,
}
use fk_cesis_mms.Billing.Plan.{MembershipPlan}
use fk_cesis_mms.Billing.Money.{BillingAmounts, partial_base_amount}
use fk_cesis_mms.Billing.Month.{parse_first_billing_month}
use fk_cesis_mms.Billing.Schedule.{count_calendar_year_billable_installments}
use fk_cesis_mms.Billing.Family.{member_opted_out, tiered_billing_amounts}
use fk_cesis_mms.Billing.Store.{
  find_for, latest_active, current_agreement, new_record, add_record, add_audit, payment_mode_of,
}

-- The amounts of a record with no agreement: the plan's amount, whatever the family.
unfoldable pub full_price_amounts : MembershipPlan → BillingAmounts
full_price_amounts plan = record {
  base_amount = plan.annual_amount;
  is_full_price = true;
  discount_percent_applied = 0;
  discount_amount = pos 0;
  final_amount = plan.annual_amount;
}

abbrev pub agreement_pk : Option Agreement → Option ℕ
agreement_pk none = none
agreement_pk (some a) = some a.pk

abbrev month_of : Option Agreement → Text
month_of none = []
month_of (some a) = a.first_billing_month

abbrev is_signed : AgreementState → Bool
is_signed signed = true
is_signed _ = false

-- `agreement.billing_plan`, or else the latest active plan.
unfoldable pub plan_for : List MembershipPlan → Option Agreement → Result (Option MembershipPlan)
plan_for plans none = ok (latest_active plans)
plan_for plans (some a) = elim a.billing_plan_id [
  | none ↦ ok (latest_active plans)
  | some k ↦ elim (find_plan k plans) [ none ↦ err does_not_exist | some p ↦ ok (some p) ]
]

abbrev partial_base : MembershipPlan → ℕ → ℤ
partial_base plan count = partial_base_amount plan.annual_amount plan.installment_count count

-- A month that is not blank must be a month.
abbrev pub check_month : Text → Action (Unit {0})
check_month month =
    if is_blank month
    then pure tt
    else (λ db. (elim (parse_first_billing_month month) [ ok _ ↦ ok tt | err e ↦ err e ], db))

module _ (nulls_last : Bool) where
  abbrev partial_amounts : Db → Member → MembershipPlan → Text → Result (BillingAmounts × Option ℕ)
  partial_amounts db member plan month =
      Errors.◌>>=◌ (count_calendar_year_billable_installments plan month) λ (count : ℕ).
        Errors.◌>>=◌
          (tiered_billing_amounts nulls_last db member plan month true
            (some (partial_base plan count)))
          λ (amounts : BillingAmounts). ok (amounts, some count)

  -- The three ways to the amounts, with the count that is saved.
  unfoldable pub draft_amounts :
      Db → Member → MembershipPlan → Option Agreement → Text → Result (BillingAmounts × Option ℕ)
  draft_amounts db member plan none month = ok (full_price_amounts plan, none)
  draft_amounts db member plan (some agreement) month =
      if is_blank month
      then Errors.◌>>=◌ (tiered_billing_amounts nulls_last db member plan month true none)
          (λ (amounts : BillingAmounts). ok (amounts, none))
      else partial_amounts db member plan month

  -- The block under the guardian's lock.
  unfoldable pub create_for_season :
      Member → MembershipPlan → Option Agreement → Text → Action (BillingRecord × Bool)
  create_for_season member plan agreement month = do
    existing ← gets (λ db. find_for member.pk plan.season db.records)
    elim existing [
      | some r ↦ pure (r, false)
      | none ↦ do
        db ← gets (λ db. db)
        (amounts, scheduled) ← lift (draft_amounts db member plan agreement month)
        let r =
            new_record db.next_pk member plan (agreement_pk agreement) amounts
              (payment_mode_of member) (member_opted_out member) month scheduled
        modify (add_record r)
        pure (r, true)
    ]

  -- `_create_draft_billing_for_member`: the record, if there is a plan, and whether it is new.
  unfoldable pub create_draft_billing :
      Member → Option Agreement → Action (Option BillingRecord × Bool)
  create_draft_billing member agreement = do
    plan ← (λ db. lift (plan_for db.plans agreement) db)
    elim plan [
      | none ↦ pure (none, false)
      | some p ↦ do
        (r, created) ← atomic (create_for_season member p agreement (month_of agreement))
        pure (some r, created)
    ]

  -- `create_draft_billing_for_member`
  unfoldable pub create_draft_billing_for_member :
      Member → Option Agreement → Action (Option BillingRecord)
  create_draft_billing_for_member member agreement = do
    (r, _) ← create_draft_billing member agreement
    pure r

  -- The block of `renew_member_billing` under the guardian's lock.
  unfoldable pub renew_in_season : Member → MembershipPlan → Text → Action (Option BillingRecord)
  renew_in_season member plan month = do
    existing ← gets (λ db. find_for member.pk plan.season db.records)
    elim existing [
      | some _ ↦ pure none
      | none ↦ do
        db ← gets (λ db. db)
        amounts ← lift (tiered_billing_amounts nulls_last db member plan month false none)
        let current = agreement_pk (current_agreement member.pk db.agreements)
        let r =
            new_record db.next_pk member plan current amounts (payment_mode_of member)
              (member_opted_out member) month none
        modify (add_record r)
        pure (some r)
    ]

  unfoldable pub renew_member_billing :
      Member → MembershipPlan → Text → Action (Option BillingRecord)
  renew_member_billing member plan month = do
    check_month month
    made ← atomic (renew_in_season member plan month)
    elim made [
      | none ↦ pure none
      | some r ↦ do
        modify (add_audit (billing_record_renewed r.pk plan.pk plan.season month))
        pure (some r)
    ]

  -- The block of `recreate_missing_billing_record`.
  unfoldable pub recreate_block : Member → Agreement → Action BillingRecord
  recreate_block member agreement = do
    (made, created) ← create_draft_billing member (some agreement)
    r ← or_raise made no_plan
    raise_if (not created) record_exists
    pure r

  unfoldable pub recreate_missing_billing_record :
      Member → Option Agreement → Bool → Action BillingRecord
  recreate_missing_billing_record member agreement confirmed_absent = do
    raise_if (not confirmed_absent) confirmation_required
    a ← or_raise agreement signed_agreement_required
    raise_if (not (is_signed a.state) || not (a.member_id == member.pk)) signed_agreement_required
    plan_id ← or_raise a.billing_plan_id billing_plan_required
    plan ← gets (λ db. find_plan plan_id db.plans)
    p ← or_raise plan does_not_exist
    existing ← gets (λ db. find_for member.pk p.season db.records)
    raise_if (is_some existing) record_exists
    r ← atomic (recreate_block member a)
    modify (add_audit (billing_record_recreated r.pk a.billing_plan_id p.season))
    pure r
