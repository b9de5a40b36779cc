-- ===== src/Billing/Family.antt =====
-- The family discount of apps/billing/services.py: the rank of a member among the signed
-- agreements of its guardian, and the amounts at the discount of that rank.
pub mod Order
pub mod Rank
pub mod Elders
use fk_cesis_mms.Base.{
  ℕ, zero, suc, Bool, true, false, not, ◌&&◌, ◌||◌, Option, none, some, List, [], ◌∷◌, ltb, ◌==◌,
  if◌then◌else◌, keep, min,
}
use fk_cesis_mms.Base.Int.{ℤ, pos}
use fk_cesis_mms.Base.Text.{Text, text_eq}
use fk_cesis_mms.Errors.{Result, ok, err, ◌>>=◌, index_error}
use fk_cesis_mms.Models.{
  Member, MemberStatus, active, discontinued, Agreement, AgreementState, signed, Db, find_member,
  find_plan,
}
use fk_cesis_mms.Billing.Calendar.{Date, date_le}
use fk_cesis_mms.Billing.Plan.{MembershipPlan}
use fk_cesis_mms.Billing.Money.{BillingAmounts, amounts_of}
use fk_cesis_mms.Billing.Schedule.{Row, derive_installment_schedule}

-- `TIER_DISCOUNT_PERCENT`, for the tiers 0 to 3 that occur.
abbrev pub tier_discount_percent : ℕ → ℕ
tier_discount_percent zero = 0
tier_discount_percent (suc zero) = 5000
tier_discount_percent (suc (suc zero)) = 7500
tier_discount_percent (suc (suc (suc _))) = 10_000

abbrev pub max_tier : ℕ
max_tier = 3

-- `_member_opted_out`
abbrev pub member_opted_out : Member → Bool
member_opted_out member = elim member.source_application [
  | none ↦ false
  | some application ↦ elim application.support_club_instead_of_multi_child_discount [
    | none ↦ false
    | some opted ↦ opted
  ]
]

-- An agreement with its member, the rows of the query's join.
abbrev pub Candidate : Type 0
Candidate = Agreement × Member

abbrev joined : List Member → List Agreement → List Candidate
joined members [] = []
joined members (a ∷ agreements) =
    let rest = joined members agreements in
    elim (find_member a.member_id members) [ none ↦ rest | some m ↦ (a, m) ∷ rest ]

abbrev is_signed : AgreementState → Bool
is_signed signed = true
is_signed _ = false

abbrev is_discontinued : MemberStatus → Bool
is_discontinued active = false
is_discontinued discontinued = true

-- The `exclude`: discontinued by the due date, or discontinued with no date.
abbrev has_left : Member → Date → Bool
has_left m due = elim m.discontinued_effective_date [
  | none ↦ is_discontinued m.status
  | some day ↦ date_le day due
]

abbrev season_matches : List MembershipPlan → Text → Option ℕ → Bool
season_matches plans season none = false
season_matches plans season (some plan_id) = elim (find_plan plan_id plans) [
  | none ↦ false
  | some p ↦ text_eq p.season season
]

abbrev in_family : Db → ℕ → MembershipPlan → Date → Bool → Candidate → Bool
in_family db guardian_id plan due season_scoped (a, m) =
    (a.is_current && is_signed a.state)
    && (m.guardian_id == guardian_id)
    && not (has_left m due)
    && (not season_scoped || season_matches db.plans plan.season a.billing_plan_id)

-- `order_by("signed_at", "member_id")`. Where NULLs stand is the database's choice (`nulls_last`).
abbrev null_place : Bool → Option ℕ → ℕ
null_place nulls_last none = if nulls_last then 2 else 0
null_place nulls_last (some _) = 1

abbrev time_of : Option ℕ → ℕ
time_of none = 0
time_of (some t) = t

abbrev pub before : Bool → Candidate → Candidate → Bool
before nulls_last (a, m) (b, n) =
    ltb (null_place nulls_last a.signed_at) (null_place nulls_last b.signed_at)
    || (null_place nulls_last a.signed_at == null_place nulls_last b.signed_at
        && (ltb (time_of a.signed_at) (time_of b.signed_at)
            || (time_of a.signed_at == time_of b.signed_at && ltb a.member_id b.member_id)))

unfoldable pub insert_by : Bool → Candidate → List Candidate → List Candidate
insert_by nulls_last c [] = c ∷ []
insert_by nulls_last c (d ∷ rest) =
    let later = insert_by nulls_last c rest in
    if before nulls_last d c then d ∷ later else c ∷ d ∷ rest

unfoldable pub ordered : Bool → List Candidate → List Candidate
unfolding insert_by
ordered nulls_last [] = []
ordered nulls_last (c ∷ cs) = insert_by nulls_last c (ordered nulls_last cs)

-- The loop `for rank, candidate in enumerate(candidates)`.
unfoldable pub rank_from : ℕ → ℕ → List Candidate → Option ℕ
rank_from rank pk [] = none
rank_from rank pk ((a, m) ∷ rest) =
    let later = rank_from (suc rank) pk rest in if a.member_id == pk then some rank else later

abbrev pub family : Db → ℕ → MembershipPlan → Date → Bool → List Candidate
family db guardian_id plan due season_scoped =
    keep (in_family db guardian_id plan due season_scoped) (joined db.members db.agreements)

unfoldable pub compute_family_tier : Bool → Db → Member → MembershipPlan → Date → Bool → ℕ
unfolding ordered rank_from
compute_family_tier nulls_last db member plan due season_scoped =
    elim (rank_from 0 member.pk
      (ordered nulls_last (family db member.guardian_id plan due season_scoped))) [
        | none ↦ 0
        | some rank ↦ min rank max_tier
      ]

abbrev first_due : List Row → Result Date
first_due [] = err index_error
first_due ((due, _) ∷ _) = ok due

-- `_first_billable_due_date`
unfoldable pub first_billable_due_date : MembershipPlan → Text → Result Date
unfolding derive_installment_schedule
first_billable_due_date plan first_billing_month =
    derive_installment_schedule plan (pos 0) first_billing_month none >>= first_due

abbrev base_or : Option ℤ → ℤ → ℤ
base_or none annual = annual
base_or (some base) annual = base

-- `_tiered_billing_amounts`
unfoldable pub tiered_billing_amounts :
    Bool → Db → Member → MembershipPlan → Text → Bool → Option ℤ → Result BillingAmounts
unfolding compute_family_tier first_billable_due_date amounts_of
tiered_billing_amounts nulls_last db member plan first_billing_month season_scoped base_amount = do
  due ← first_billable_due_date plan first_billing_month
  let tier = compute_family_tier nulls_last db member plan due season_scoped
  let percent = if member_opted_out member then 0 else tier_discount_percent tier
  ok (amounts_of (base_or base_amount plan.annual_amount) percent)
