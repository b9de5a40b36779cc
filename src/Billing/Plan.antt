-- ===== src/Billing/Plan.antt =====
-- `MembershipPlan` of apps/billing/models.py, as far as the billing services read it.
use fk_cesis_mms.Base.{
  ℕ, Bool, false, ◌&&◌, ◌||◌, Option, none, some, List, [], ◌∷◌, leb, if◌then◌else◌, all, contains,
  keep,
}
use fk_cesis_mms.Base.Int.{ℤ, pos, negsuc}
use fk_cesis_mms.Base.Text.{Text, split_on, is_digit, int}

pub record MembershipPlan : Type 0 where
  pub pk : ℕ
  pub season : Text
  pub annual_amount : ℤ
  pub installment_count : ℕ
  pub first_installment_month : ℕ
  pub payment_due_day : ℕ
  pub skip_months : Text
  pub is_active : Bool
  pub is_default : Bool
  pub billing_start_cutoff_day : ℕ

-- The whitespace of `str.strip`, on ASCII texts.
abbrev strips : ℕ → Bool
strips c = (leb 9 c && leb c 13) || (leb 28 c && leb c 32)

abbrev strip_start : Text → Text
strip_start [] = []
strip_start (c ∷ s) = let rest = strip_start s in if strips c then rest else c ∷ s

abbrev strip_end : Text → Text
strip_end [] = []
strip_end (c ∷ s) = elim (strip_end s) [ [] ↦ if strips c then [] else c ∷ [] | d ∷ t ↦ c ∷ d ∷ t ]

-- `s.strip()`
abbrev pub strip : Text → Text
strip s = strip_end (strip_start s)

-- `s.isdigit()`
abbrev is_digits : Text → Bool
is_digits [] = false
is_digits (c ∷ s) = is_digit c && all is_digit s

-- The month that a part of `skip_months` names.
unfoldable pub month_of : Text → Option ℕ
unfolding int
month_of part =
    if is_digits part
    then (elim (int part) [
      | none ↦ none
      | some n ↦ elim n [ pos m ↦ if leb 1 m && leb m 12 then some m else none | negsuc _ ↦ none ]
    ])
    else none

unfoldable pub months_of : List Text → List ℕ
unfolding month_of
months_of [] = []
months_of (part ∷ parts) =
    let rest = months_of parts in elim (month_of (strip part)) [ none ↦ rest | some m ↦ m ∷ rest ]

abbrev pub all_months : List ℕ
all_months = 1 ∷ 2 ∷ 3 ∷ 4 ∷ 5 ∷ 6 ∷ 7 ∷ 8 ∷ 9 ∷ 10 ∷ 11 ∷ 12 ∷ []

-- `skip_months_list`: each month of the set once, in order.
unfoldable pub skip_months_list : MembershipPlan → List ℕ
unfolding months_of
skip_months_list plan =
    let months = months_of (split_on b',' plan.skip_months) in keep (contains months) all_months
