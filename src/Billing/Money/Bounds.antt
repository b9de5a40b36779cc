-- ===== src/Billing/Money/Bounds.antt =====
-- Rounding errors, discounts and the split of a total into installments.
use fk_cesis_mms.Base.{
  ℕ, zero, suc, ◌+◌, ◌-◌, ◌*◌, ◌≤◌, ◌<◌, max, ◌≡◌, refl, ap, [], ◌∷◌, arith, length, replicate,
  length-append, length-replicate,
}
use fk_cesis_mms.Base.Int.{ℤ, pos, ◌+ℤ◌, ◌-ℤ◌, ◌*ℕ◌, ◌≤ℤ◌, int_laws, *ℕ_parts, sum_ℤ, sum_ℤ-append}
use fk_cesis_mms.Billing.Money.{
  round_half_up, money_ratio, whole, amounts_of, discount_of, installment, split_amounts,
  partial_base_amount,
}

-- The rounded quotient is at most half a divisor away.
round_half_up_bounds :
    (n d : ℕ)
    → 0 < d
    → (2 * n < 2 * (d * round_half_up n d) + d + 1) × (2 * (d * round_half_up n d) ≤ 2 * n + d)
round_half_up_bounds n d h = grind arith

sum_ℤ-replicate : (n : ℕ) (a : ℤ) → sum_ℤ (replicate n a) ≡ a *ℕ n
sum_ℤ-replicate zero a = omega (int_laws, *ℕ_parts a 0)
sum_ℤ-replicate (suc n) a =
    rw (sum_ℤ-replicate n a) (omega (int_laws, *ℕ_parts a n, *ℕ_parts a (suc n)))

-- The installments add up to the total, whatever was rounded.
pub sum-split_amounts : (total : ℤ) (count : ℕ) → sum_ℤ (split_amounts total count) ≡ total
unfolding split_amounts
sum-split_amounts total count =
    rw
      (sum_ℤ-append (replicate (count - 1) (installment total count))
        ((total -ℤ installment total count *ℕ (count - 1)) ∷ []))
      (rw (sum_ℤ-replicate (count - 1) (installment total count)) (omega int_laws))

-- There are as many installments as were asked for.
pub length-split_amounts :
    (total : ℤ) (count : ℕ) → 1 ≤ count → length (split_amounts total count) ≡ count
unfolding split_amounts
length-split_amounts total count h =
    rw (length-append (replicate (count - 1) (installment total count)))
      (rw (length-replicate (count - 1) (installment total count)) (omega arith))

pub *ℕ-pos : (a n : ℕ) → pos a *ℕ n ≡ pos (a * n)
unfolding ◌*ℕ◌
*ℕ-pos a n = ground arith

pub money_ratio-pos : (n d : ℕ) → money_ratio (pos n) d ≡ pos (round_half_up n d)
unfolding money_ratio
money_ratio-pos n d = refl

discount_of-pos :
    (base percent : ℕ) → discount_of (pos base) percent ≡ pos (round_half_up (base * percent) whole)
unfolding discount_of
discount_of-pos base percent = rw (*ℕ-pos base percent)

round-le : (base percent : ℕ) → percent ≤ whole → round_half_up (base * percent) whole ≤ base
round-le base percent h = let most : base * percent ≤ base * whole = grind arith in omega arith

-- A discount of at most the whole lies between nothing and the base.
pub discount_bounds :
    (base percent : ℕ)
    → percent ≤ whole
    → (pos 0 ≤ℤ discount_of (pos base) percent) × (discount_of (pos base) percent ≤ℤ pos base)
discount_bounds base percent h =
    rw (discount_of-pos base percent) (omega arith, omega (arith, round-le base percent h))

-- With a discount of at most the whole, what is left to pay is between nothing and the base, adds
-- up with the discount to the base, is the base where there is no discount, and nothing where the
-- discount is the whole.
pub final_bounds :
    (base percent : ℕ)
    → percent ≤ whole
    → let a = amounts_of (pos base) percent in
      (pos 0 ≤ℤ a.final_amount)
      × (a.final_amount ≤ℤ pos base)
      × (a.final_amount +ℤ a.discount_amount ≡ pos base)
      × (percent ≡ 0 → a.final_amount ≡ pos base)
      × (percent ≡ whole → a.final_amount ≡ pos 0)
unfolding amounts_of
final_bounds base percent h = rw (discount_of-pos base percent) (
  omega (int_laws, round-le base percent h),
  omega int_laws,
  omega int_laws,
  (λ e. omega (int_laws, ap (λ (t : ℕ). base * t) e)),
  (λ e. omega (int_laws, ap (λ (t : ℕ). base * t) e)),
)

part-le : (annual n k : ℕ) → 1 ≤ n → k ≤ n → round_half_up (annual * k) n ≤ annual
part-le annual n k h h' = let most : annual * k ≤ annual * n = grind arith in grind arith

part-whole : (annual n : ℕ) → 1 ≤ n → round_half_up (annual * n) n ≡ annual
part-whole annual n h = grind arith

-- At least one and at most all of a plan's installments cost between nothing and the plan's amount,
-- and all of them the plan's amount.
pub partial_base_bounds :
    (annual installment_count scheduled : ℕ)
    → 1 ≤ scheduled
    → scheduled ≤ installment_count
    → let part = partial_base_amount (pos annual) installment_count scheduled in
      (pos 0 ≤ℤ part) × (part ≤ℤ pos annual) × (scheduled ≡ installment_count → part ≡ pos annual)
unfolding partial_base_amount
partial_base_bounds annual n k h h' = rw (*ℕ-pos annual (max k 1)) (
  omega arith,
  omega (arith, part-le annual (max n 1) (max k 1) (omega arith) (omega arith)),
  λ e. ap pos (rw e (part-whole annual (max n 1) (omega arith))),
)
