-- ===== src/Billing/Money.antt =====
-- Amounts of apps/billing/services.py. A `Decimal` amount with two places is its number of cents.
-- `_money(x)` quantizes to cents, halves away from zero; `x` is a quotient of cents by a small
-- number (a count below 2 ^ 15, or 10 000), so the 28 digits of a `Decimal` division are enough
-- for it to be the exact quotient's rounding.
pub mod Bounds
use fk_cesis_mms.Base.{
  ℕ, zero, suc, ◌+◌, ◌-◌, ◌*◌, ◌/◌, max, Bool, List, [], ◌∷◌, ◌++◌, ◌==◌, Option, none, some,
  replicate,
}
use fk_cesis_mms.Base.Int.{ℤ, pos, negsuc, ◌-ℤ◌, ◌*ℕ◌}

abbrev round_half_up : ℕ → ℕ → ℕ
round_half_up n d = (2 * n + d) / (2 * d)

abbrev negated : ℕ → ℤ
negated zero = pos 0
negated (suc n) = negsuc n

-- `_money(a / d)`, for an amount `a` in cents.
unfoldable pub money_ratio : ℤ → ℕ → ℤ
money_ratio (pos n) d = pos (round_half_up n d)
money_ratio (negsuc n) d = negated (round_half_up (suc n) d)

-- A percentage is held in hundredths: 50.00 is 5000.
abbrev pub whole : ℕ
whole = 10_000

-- `class BillingAmounts`
pub record BillingAmounts : Type 0 where
  pub base_amount : ℤ
  pub is_full_price : Bool
  pub discount_percent_applied : ℕ
  pub discount_amount : ℤ
  pub final_amount : ℤ

-- `_money(base * percent / Decimal("100"))`
unfoldable pub discount_of : ℤ → ℕ → ℤ
unfolding money_ratio
discount_of base percent = money_ratio (base *ℕ percent) whole

-- The amounts that `_tiered_billing_amounts` builds from a base and a percentage.
unfoldable pub amounts_of : ℤ → ℕ → BillingAmounts
amounts_of base percent = record {
  base_amount = base;
  is_full_price = percent == 0;
  discount_percent_applied = percent;
  discount_amount = discount_of base percent;
  final_amount = base -ℤ discount_of base percent;
}

-- `partial_base_amount`
unfoldable pub partial_base_amount : ℤ → ℕ → ℕ → ℤ
unfolding money_ratio
partial_base_amount annual_amount installment_count scheduled =
    money_ratio (annual_amount *ℕ max scheduled 1) (max installment_count 1)

-- `per` and `amounts` of `derive_installment_schedule`, for a count of at least 1.
unfoldable pub installment : ℤ → ℕ → ℤ
unfolding money_ratio
installment total count = money_ratio total count

unfoldable pub split_amounts : ℤ → ℕ → List ℤ
split_amounts total count =
    replicate (count - 1) (installment total count)
    ++ (total -ℤ installment total count *ℕ (count - 1)) ∷ []
