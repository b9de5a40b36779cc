-- ===== src/Agreements/Laws/Guards.antt =====
-- What the guards of a signature let through.
use fk_cesis_mms.Base.{
  ℕ, ◌≡◌, refl, ap, ◌∙◌, true, false, some, List, arith, Bool-cases, Option-cases, ◌⊎◌, inl, inr,
}
use fk_cesis_mms.Base.Int.{ℤ, pos, negsuc}
use fk_cesis_mms.Billing.Reassign.{is_year}
use fk_cesis_mms.Base.Text.{Text, is_blank, before_first, int}
use fk_cesis_mms.Errors.{ok, Result-cases}
use fk_cesis_mms.Models.{
  Agreement, AgreementState, generated, sent, signed, void, superseded, discontinued, find_plan,
}
use fk_cesis_mms.Billing.Plan.{MembershipPlan}
use fk_cesis_mms.Billing.Month.{normalize_first_billing_month, plan_season_start_year}
use fk_cesis_mms.Agreements.Signed.{is_signable, check_month_of, signing_guards}

-- What the guards of a signature let through.
abbrev pub MaySign : List MembershipPlan → Agreement → MembershipPlan → Type 0
MaySign plans a p =
    (k : ℕ) × (a.billing_plan_id ≡ some k)
    × (find_plan k plans ≡ some p)
    × (is_signable a.state ≡ true)
    × (is_blank a.first_billing_month ≡ false)
    × (p.is_active ≡ true)
    × (check_month_of p a.first_billing_month ≡ ok tt)

pub guards-MaySign :
    (plans : List MembershipPlan) (a : Agreement) (u : Unit {0})
    → signing_guards plans a ≡ ok u
    → (p : MembershipPlan) × MaySign plans a p
unfolding signing_guards
guards-MaySign plans a u h = elim (Bool-cases (is_signable a.state)) [
  | inr e ↦ absurd (ground (arith, h, e))
  | inl e ↦ elim (Option-cases a.billing_plan_id) [
    | inl f ↦ absurd (ground (arith, h, e, f))
    | inr (k, f) ↦ elim (Bool-cases (is_blank a.first_billing_month)) [
      | inl g ↦ absurd (ground (arith, h, e, f, g))
      | inr g ↦ elim (Option-cases (find_plan k plans)) [
        | inl i ↦ absurd (ground (arith, h, e, f, g, i))
        | inr (p, i) ↦ elim (Bool-cases p.is_active) [
          | inr j ↦ absurd (ground (arith, h, e, f, g, i, j))
          | inl j ↦ (p, (k, f, i, e, g, j, ground (arith, h, e, f, g, i, j)))
        ]
      ]
    ]
  ]
]

pub MaySign-guards :
    (plans : List MembershipPlan) (a : Agreement) (p : MembershipPlan)
    → MaySign plans a p
    → signing_guards plans a ≡ ok tt
unfolding signing_guards
MaySign-guards plans a p (k, plan_id, stored, state, month, active, check) =
    ground (arith, plan_id, stored, state, month, active, check)

-- The month, past the months that are not billed, lies in the year in which the season of the plan
-- starts.
abbrev pub IsInSeason : MembershipPlan → Text → Type 0
IsInSeason p month =
    (year : ℕ) × (normalized : Text) × (plan_season_start_year p ≡ ok year)
    × (normalize_first_billing_month p month ≡ ok normalized)
    × (int (before_first b'-' normalized) ≡ some (pos year))

year-here : (y : ℤ) (year : ℕ) → is_year y year ≡ true → y ≡ pos year
year-here (pos y) year h = ap pos (ground (arith, h))
year-here (negsuc y) year h = absurd (cc)

pub check-IsInSeason :
    (p : MembershipPlan) (month : Text) → check_month_of p month ≡ ok tt → IsInSeason p month
unfolding check_month_of
check-IsInSeason p month h = elim (Result-cases (plan_season_start_year p)) [
  | inr (x, e) ↦ absurd (ground (arith, h, e))
  | inl (year, e) ↦ elim (Result-cases (normalize_first_billing_month p month)) [
    | inr (x, f) ↦ absurd (ground (arith, h, e, f))
    | inl (normalized, f) ↦ elim (Option-cases (int (before_first b'-' normalized))) [
      | inl g ↦ absurd (ground (arith, h, e, f, g))
      | inr (y, g) ↦
          let same : y ≡ pos year = year-here y year (ground (arith, h, e, f, g)) in
          (year, normalized, e, f, g ∙ ap some same)
    ]
  ]
]

pub signable-cases : (s : AgreementState) → is_signable s ≡ true → (s ≡ generated) ⊎ (s ≡ sent)
signable-cases generated h = inl refl
signable-cases sent h = inr refl
signable-cases signed h = absurd (cc)
signable-cases void h = absurd (cc)
signable-cases superseded h = absurd (cc)
signable-cases discontinued h = absurd (cc)
