-- ===== src/Billing/Month.antt =====
-- Billing months of apps/billing/services.py: the texts `YYYY-MM`, the walk past the months that
-- a plan skips, and the month of the first invoice.
pub mod Format
pub mod Normalize
pub mod Skip
use fk_cesis_mms.Base.{
  ℕ, zero, suc, ◌+◌, not, ◌&&◌, ◌||◌, Option, none, some, List, ◌∷◌, ◌++◌, ltb, leb, ◌==◌,
  if◌then◌else◌, length, contains,
}
use fk_cesis_mms.Base.Int.{ℤ, pos, negsuc}
use fk_cesis_mms.Base.Text.{Text, is_blank, split_once, before_first, int, padded}
use fk_cesis_mms.Errors.{
  Result, ok, err, ◌>>=◌, or_raise, month_format, season_malformed, season_out_of_range,
  no_billing_months,
}
use fk_cesis_mms.Billing.Calendar.{Date}
use fk_cesis_mms.Billing.Plan.{MembershipPlan, skip_months_list}

-- `f"{year:04d}-{month:02d}"`
unfoldable pub format_month : ℕ → ℕ → Text
format_month year month = padded 4 year ++ b'-' ∷ padded 2 month

-- `month += 1`, with the year's wrap.
abbrev pub next_month : ℕ × ℕ → ℕ × ℕ
next_month (year, month) = if ltb 12 (month + 1) then (year + 1, 1) else (year, month + 1)

-- `derive_first_billing_month(plan, today)`
unfoldable pub derive_first_billing_month : MembershipPlan → Date → Text
unfolding format_month
derive_first_billing_month plan today =
    let (year, month) =
      if ltb plan.billing_start_cutoff_day today.day
      then next_month (today.year, today.month)
      else (today.year, today.month) in
    format_month year month

-- The checks on the two parts of a month's text. `year_str` holds no dash, so that its number is
-- not negative.
abbrev checked_month : Text → Text → ℤ → ℤ → Result (ℕ × ℕ)
checked_month year_str month_str (pos year) (pos month) =
    if not (length year_str == 4)
      || (not (length month_str == 2) || not (leb 1 month && leb month 12))
    then err month_format
    else ok (year, month)
checked_month year_str month_str _ _ = err month_format

abbrev parsed_parts : Text × Text → Result (ℕ × ℕ)
parsed_parts (year_str, month_str) = do
  year ← or_raise (int year_str) month_format
  month ← or_raise (int month_str) month_format
  checked_month year_str month_str year month

-- `parse_first_billing_month`: a blank text gives `none`.
unfoldable pub parse_first_billing_month : Text → Result (Option (ℕ × ℕ))
parse_first_billing_month value = if is_blank value then ok none else (do
  parts ← or_raise (split_once b'-' value) month_format
  month ← parsed_parts parts
  ok (some month))

-- `_plan_season_start_year`
unfoldable pub plan_season_start_year : MembershipPlan → Result ℕ
plan_season_start_year plan = do
  year ← or_raise (int (before_first b'/' plan.season)) season_malformed
  elim year [
    | pos y ↦ if leb 1900 y && leb y 9999 then ok y else err season_out_of_range
    | negsuc _ ↦ err season_out_of_range
  ]

-- The loop `while month in skip`, which raises at the thirteenth advance; `left` is the number of
-- advances that it may still make.
unfoldable pub skip_forward : ℕ → List ℕ → ℕ × ℕ → Result (ℕ × ℕ)
skip_forward zero skip (year, month) =
    if contains skip month then err no_billing_months else ok (year, month)
skip_forward (suc left) skip (year, month) =
    let rest = skip_forward left skip (next_month (year, month)) in
    if contains skip month then rest else ok (year, month)

-- `normalize_first_billing_month`
unfoldable pub normalize_first_billing_month : MembershipPlan → Text → Result Text
unfolding parse_first_billing_month skip_forward format_month
normalize_first_billing_month plan value = do
  parsed ← parse_first_billing_month value
  start ← or_raise parsed month_format
  (year, month) ← skip_forward 12 (skip_months_list plan) start
  ok (format_month year month)
