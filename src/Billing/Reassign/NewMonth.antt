-- ===== src/Billing/Reassign/NewMonth.antt =====
-- The checks on a new month, and what they leave.
use fk_cesis_mms.Base.{
  ℕ, ◌≡◌, ap, ◌∙◌, true, false, not, some, arith, Bool-cases, Option-cases, inl, inr,
}
use fk_cesis_mms.Base.Int.{ℤ, pos, negsuc}
use fk_cesis_mms.Base.Text.{Text, text_lt, before_first, int}
use fk_cesis_mms.Errors.{
  ok, Result-cases, not_an_int, next_year_plan_required, month_before_default, or_raise, raise_if,
  ◌>>=◌, ◌>>◌,
}
use fk_cesis_mms.Billing.Calendar.{Date}
use fk_cesis_mms.Billing.Plan.{MembershipPlan}
use fk_cesis_mms.Billing.Month.{
  parse_first_billing_month, normalize_first_billing_month, plan_season_start_year,
  derive_first_billing_month,
}
use fk_cesis_mms.Billing.Schedule.{count_calendar_year_billable_installments}
use fk_cesis_mms.Billing.Reassign.{is_year, check_new_month}

-- A month that the plan's season takes: it is in the season's first year and not before the
-- default month of today, and the count is that of its calendar year.
abbrev pub IsNewMonth : MembershipPlan → Date → Text → ℕ → Type 0
IsNewMonth plan today month count =
    (year : ℕ) × (plan_season_start_year plan ≡ ok year)
    × (int (before_first b'-' month) ≡ some (pos year))
    × (text_lt month (derive_first_billing_month plan today) ≡ false)
    × (count_calendar_year_billable_installments plan month ≡ ok count)

pub is_year-pos : (y : ℤ) (year : ℕ) → is_year y year ≡ true → y ≡ pos year
is_year-pos (pos y) year h = ground arith
is_year-pos (negsuc y) year h = absurd (cc)

-- The checks that follow the normalization, one after the other.
later_checks :
    (plan : MembershipPlan) (today : Date) (normalized : Text) (season_year : ℕ) (out : Text × ℕ)
    → (do
      year ← or_raise (int (before_first b'-' normalized)) not_an_int
      raise_if (not (is_year year season_year)) next_year_plan_required
      raise_if (text_lt normalized (derive_first_billing_month plan today)) month_before_default
      count ← count_calendar_year_billable_installments plan normalized
      ok (normalized, count))
      ≡ ok out
    → (int (before_first b'-' normalized) ≡ some (pos season_year))
      × (text_lt normalized (derive_first_billing_month plan today) ≡ false)
      × (count_calendar_year_billable_installments plan normalized ≡ ok out.1)
      × (normalized ≡ out.0)
later_checks plan today normalized season_year out h =
    elim (Option-cases (int (before_first b'-' normalized))) [
      | inl e ↦ absurd (ground (arith, h, e))
      | inr (y, e) ↦ elim (Bool-cases (is_year y season_year)) [
        | inr f ↦ absurd (ground (arith, h, e, f))
        | inl f ↦ elim (Bool-cases (text_lt normalized (derive_first_billing_month plan today))) [
          | inl g ↦ absurd (ground (arith, h, e, f, g))
          | inr g ↦
              elim (Result-cases (count_calendar_year_billable_installments plan normalized)) [
                | inr (x, c) ↦ absurd (ground (arith, h, e, f, g, c))
                | inl (count, c) ↦
                    let same : (normalized, count) ≡ out = cc (rw (e, f, g, c) at h) in
                    (
                      e ∙ ap some (is_year-pos y season_year f),
                      g,
                      c ∙ ap (λ o. ok o.1) same,
                      ap (λ o. o.0) same,
                    )
              ]
        ]
      ]
    ]

pub check_new_month-IsNewMonth :
    (plan : MembershipPlan) (value : Text) (today : Date) (month : Text) (count : ℕ)
    → check_new_month plan value today ≡ ok (month, count)
    → IsNewMonth plan today month count
unfolding check_new_month
check_new_month-IsNewMonth plan value today month count h =
    elim (Result-cases (parse_first_billing_month value)) [
      | inr (x, e) ↦ absurd (ground (arith, h, e))
      | inl (start, e) ↦ elim (Result-cases (normalize_first_billing_month plan value)) [
        | inr (x, f) ↦ absurd (ground (arith, h, e, f))
        | inl (normalized, f) ↦ elim (Result-cases (plan_season_start_year plan)) [
          | inr (x, g) ↦ absurd (ground (arith, h, e, f, g))
          | inl (year, g) ↦
              let (a, b, c, same) =
                later_checks plan today normalized year (month, count) (rw (e, f, g) at h) in
              rw (← same) (year, g, a, b, c)
        ]
      ]
    ]
