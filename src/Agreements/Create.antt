-- ===== src/Agreements/Create.antt =====
-- `create_agreement_for_member` and `regenerate_agreement` of apps/agreements/services.py.
use fk_cesis_mms.Base.{
  ℕ, suc, Bool, true, false, not, ◌&&◌, Option, none, some, List, [], ◌∷◌, ◌++◌, any, ◌==◌,
  if◌then◌else◌,
}
use fk_cesis_mms.Base.Text.{Text, before_first, int}
use fk_cesis_mms.Errors as Errors
use fk_cesis_mms.Errors.{
  Result, ok, err, next_year_plan_required, not_an_int, integrity_error, no_agreement,
  active_agreement,
}
use fk_cesis_mms.Models.{Agreement, AgreementState, void, generated, SigningPath, Db}
use fk_cesis_mms.Models.Action.{Action, ◌>>=◌, ◌>>◌, pure, gets, or_raise, atomic, raise_if, modify}
use fk_cesis_mms.Billing.Calendar.{Date}
use fk_cesis_mms.Billing.Plan.{MembershipPlan}
use fk_cesis_mms.Billing.Month.{
  normalize_first_billing_month, plan_season_start_year, derive_first_billing_month,
}
use fk_cesis_mms.Billing.Reassign.{is_year}
use fk_cesis_mms.Billing.Store.{current_agreement}
use fk_cesis_mms.Agreements.Clock.{Clock}
use fk_cesis_mms.Agreements.Number.{save_agreement, assign_agreement_number}

-- `get_default_billing_plan`
abbrev pub get_default_billing_plan : List MembershipPlan → Option MembershipPlan
get_default_billing_plan [] = none
get_default_billing_plan (p ∷ plans) =
    let rest = get_default_billing_plan plans in
    if p.is_default && p.is_active then some p else rest

-- The month of a default plan, if it falls into the plan's season-start year.
unfoldable pub default_month : MembershipPlan → Date → Result Text
default_month plan today =
    Errors.◌>>=◌ (normalize_first_billing_month plan (derive_first_billing_month plan today))
      λ (normalized : Text). Errors.◌>>=◌ (plan_season_start_year plan) λ (season_year : ℕ).
        Errors.◌>>=◌ (Errors.or_raise (int (before_first b'-' normalized)) not_an_int)
          λ year. if is_year year season_year then ok normalized else err next_year_plan_required

-- The plan and the month that a new agreement starts with.
unfoldable pub default_setup : List MembershipPlan → Date → Option ℕ × Text
default_setup plans today = elim (get_default_billing_plan plans) [
  | none ↦ (none, [])
  | some plan ↦ elim (default_month plan today) [
    | err e ↦ (none, [])
    | ok month ↦ (some plan.pk, month)
  ]
]

abbrev pub is_void : AgreementState → Bool
is_void void = true
is_void _ = false

-- The row is the member's current agreement (the condition of the constraint
-- `one_current_agreement_per_member`).
abbrev pub is_current_of : ℕ → Agreement → Bool
is_current_of member_id a = a.is_current && a.member_id == member_id

abbrev pub new_agreement : ℕ → ℕ → SigningPath → ℕ → Option ℕ → Text → Agreement
new_agreement key member_id path now plan_id month = record {
  pk = key;
  member_id = member_id;
  is_current = true;
  state = generated;
  signing_path = path;
  agreement_number = none;
  generated_at = now;
  sent_at = none;
  signed_at = none;
  voided_at = none;
  void_reason = [];
  external_id = [];
  billing_plan_id = plan_id;
  first_billing_month = month;
}

abbrev pub add_agreement : Agreement → Db → Db
add_agreement a db = record db { agreements = db.agreements ++ a ∷ []; next_pk = suc db.next_pk }

-- `Agreement.objects.create(...)`, under the constraint of one current agreement.
unfoldable pub insert_agreement : ℕ → SigningPath → ℕ → Option ℕ → Text → Action Agreement
insert_agreement member_id path now plan_id month = do
  db ← gets (λ db. db)
  raise_if (any (is_current_of member_id) db.agreements) integrity_error
  let a = new_agreement db.next_pk member_id path now plan_id month
  modify (add_agreement a)
  pure a

-- `current.is_current = False`, where the current agreement is void.
abbrev pub archive : Agreement → Agreement
archive a = record a { is_current = false }

module _ (clock : Clock) (setting : Option Text) where
  -- The part after the old agreement was archived.
  unfoldable pub create_fresh : ℕ → SigningPath → ℕ → Action Agreement
  create_fresh member_id path now = do
    db ← gets (λ db. db)
    let (plan_id, month) = default_setup db.plans (clock.local_date now)
    atomic (do
      a ← insert_agreement member_id path now plan_id month
      assign_agreement_number clock setting a)

  unfoldable pub create_agreement_for_member : ℕ → SigningPath → ℕ → Action Agreement
  create_agreement_for_member member_id path now = do
    current ← gets (λ db. current_agreement member_id db.agreements)
    elim current [
      | none ↦ create_fresh member_id path now
      | some a ↦
          if is_void a.state
          then (do modify (save_agreement a.pk archive); create_fresh member_id path now)
          else pure a
    ]

  unfoldable pub regenerate_agreement : ℕ → SigningPath → ℕ → Action Agreement
  regenerate_agreement member_id path now = do
    current ← gets (λ db. current_agreement member_id db.agreements)
    a ← or_raise current no_agreement
    raise_if (not (is_void a.state)) active_agreement
    create_agreement_for_member member_id path now
