-- ===== src/Billing/Month/Skip.antt =====
-- The walk past skipped months: what it finds, and that it ends by finding a month exactly when
-- the plan leaves a month of the year free.
use fk_cesis_mms.Base.{
  ℕ, zero, suc, ◌+◌, ◌-◌, ◌*◌, ◌≤◌, ◌<◌, ◌≡◌, ◌≢◌, sym, ◌∙◌, true, false, inl, inr, List, arith,
  contains, leb, if◌then◌else◌, Bool-cases,
}
use native.Mathlib.Decide.{dec_lt}
use fk_cesis_mms.Errors.{ok, err, no_billing_months}
use fk_cesis_mms.Billing.Month.{next_month, skip_forward}

-- A month from 1 to 12.
abbrev pub IsMonth : ℕ → Type 0
IsMonth m = (1 ≤ m) × (m ≤ 12)

-- The months of all years in one row.
abbrev pub index : ℕ × ℕ → ℕ
index (year, month) = year * 12 + month

-- The walk from `start` ended at `found`: the first month that is not skipped, at or after it.
pub record IsFirstFree (skip : List ℕ) (start found : ℕ × ℕ) : Type 0 where
  pub month : IsMonth found.1
  pub free : contains skip found.1 ≡ false
  pub at_or_after : index start ≤ index found
  pub passed :
      (year month : ℕ)
      → IsMonth month
      → index start ≤ index (year, month)
      → index (year, month) < index found
      → contains skip month ≡ true

pub next_month-IsMonth : (year month : ℕ) → IsMonth month → IsMonth (next_month (year, month)).1
next_month-IsMonth year month h = ground arith

pub index-next_month :
    (year month : ℕ) → IsMonth month → index (next_month (year, month)) ≡ index (year, month) + 1
index-next_month year month h = ground arith

-- Two months with one index are one month.
index-injective : (y m y' m' : ℕ) → IsMonth m → IsMonth m' → index (y, m) ≡ index (y', m') → m ≡ m'
index-injective y m y' m' h h' e = omega arith

skip_step :
    (skip : List ℕ) (year month : ℕ) (found : ℕ × ℕ)
    → IsMonth month
    → contains skip month ≡ true
    → IsFirstFree skip (next_month (year, month)) found
    → IsFirstFree skip (year, month) found
skip_step skip year month found h skipped f = record {
  month = f.month;
  free = f.free;
  at_or_after = omega (arith, f.at_or_after, index-next_month year month h);
  passed = λ y m hm from below. elim (dec_lt (index (year, month)) (index (y, m))) [
    | yes later ↦ f.passed y m hm (omega (arith, index-next_month year month h)) below
    | no same ↦ rw (index-injective y m year month hm h (omega arith)) skipped
  ];
}

pub stops :
    (left : ℕ) (skip : List ℕ) (year month : ℕ)
    → contains skip month ≡ false
    → skip_forward left skip (year, month) ≡ ok (year, month)
unfolding skip_forward
stops zero skip year month h = rw h
stops (suc left) skip year month h = rw h

advances :
    (left : ℕ) (skip : List ℕ) (year month : ℕ)
    → contains skip month ≡ true
    → skip_forward (suc left) skip (year, month) ≡ skip_forward left skip (next_month (year, month))
unfolding skip_forward
advances left skip year month h = rw h

spent :
    (skip : List ℕ) (year month : ℕ)
    → contains skip month ≡ true
    → skip_forward zero skip (year, month) ≡ err no_billing_months
unfolding skip_forward
spent skip year month h = rw h

first_here :
    (skip : List ℕ) (year month : ℕ)
    → IsMonth month
    → contains skip month ≡ false
    → IsFirstFree skip (year, month) (year, month)
first_here skip year month h free = record {
  month = h;
  free = free;
  at_or_after = omega arith;
  passed = λ y m hm from below. absurd (omega arith);
}

first_is_here :
    (left : ℕ) (skip : List ℕ) (year month : ℕ) (found : ℕ × ℕ)
    → IsMonth month
    → skip_forward left skip (year, month) ≡ ok found
    → contains skip month ≡ false
    → IsFirstFree skip (year, month) found
first_is_here left skip year month found h e free =
    let here : (year, month) ≡ found = cc (stops left skip year month free) in
    rw (← here) (first_here skip year month h free)

-- A month that the walk returns is the first free one.
pub skip_forward-IsFirstFree :
    (left : ℕ) (skip : List ℕ) (year month : ℕ) (found : ℕ × ℕ)
    → IsMonth month
    → skip_forward left skip (year, month) ≡ ok found
    → IsFirstFree skip (year, month) found
skip_forward-IsFirstFree zero skip year month found h e = elim (Bool-cases (contains skip month)) [
  | inr free ↦ first_is_here zero skip year month found h e free
  | inl skipped ↦ absurd (cc (spent skip year month skipped))
]
skip_forward-IsFirstFree (suc left) skip year month found h e =
    elim (Bool-cases (contains skip month)) [
      | inr free ↦ first_is_here (suc left) skip year month found h e free
      | inl skipped ↦ skip_step skip year month found h skipped (
          skip_forward-IsFirstFree left skip (next_month (year, month)).0
            (next_month (year, month)).1 found (next_month-IsMonth year month h)
            (sym (advances left skip year month skipped) ∙ e))
    ]

-- It is at most `left` months away.
pub skip_forward-index-le :
    (left : ℕ) (skip : List ℕ) (year month : ℕ) (found : ℕ × ℕ)
    → IsMonth month
    → skip_forward left skip (year, month) ≡ ok found
    → index found ≤ index (year, month) + left
skip_forward-index-le zero skip year month found h e = elim (Bool-cases (contains skip month)) [
  | inr free ↦
      let here : (year, month) ≡ found = cc (stops zero skip year month free) in
      rw (← here) (omega arith)
  | inl skipped ↦ absurd (cc (spent skip year month skipped))
]
skip_forward-index-le (suc left) skip year month found h e =
    elim (Bool-cases (contains skip month)) [
      | inr free ↦
          let here : (year, month) ≡ found = cc (stops (suc left) skip year month free) in
          rw (← here) (omega arith)
      | inl skipped ↦ omega (
        arith,
        index-next_month year month h,
        skip_forward-index-le left skip (next_month (year, month)).0 (next_month (year, month)).1
            found (next_month-IsMonth year month h)
            (sym (advances left skip year month skipped) ∙ e),
      )
    ]

-- The advances from a month to the next `free` one.
abbrev distance : ℕ → ℕ → ℕ
distance month free = if leb month free then free - month else free + 12 - month

skip_forward_reaches :
    (left : ℕ) (skip : List ℕ) (year month free : ℕ)
    → IsMonth month
    → IsMonth free
    → contains skip free ≡ false
    → distance month free ≤ left
    → (found : ℕ × ℕ) × (skip_forward left skip (year, month) ≡ ok found)
skip_forward_reaches zero skip year month free hm hf is_free d =
    let same : month ≡ free = ground arith in
    ((year, month), stops zero skip year month (rw same is_free))
skip_forward_reaches (suc left) skip year month free hm hf is_free d =
    elim (Bool-cases (contains skip month)) [
      | inr stop ↦ ((year, month), stops (suc left) skip year month stop)
      | inl skipped ↦
          let other : month ≢ free = λ e. cc in
          rw (advances left skip year month skipped) (
            skip_forward_reaches left skip (next_month (year, month)).0 (next_month (year, month)).1
              free (next_month-IsMonth year month hm) hf is_free (ground arith))
    ]

-- From a month of the year the walk of twelve advances finds a month, if one is free.
pub skip_forward_total :
    (skip : List ℕ) (year month free : ℕ)
    → IsMonth month
    → IsMonth free
    → contains skip free ≡ false
    → (found : ℕ × ℕ) × (skip_forward 12 skip (year, month) ≡ ok found)
skip_forward_total skip year month free hm hf is_free =
    skip_forward_reaches 12 skip year month free hm hf is_free (ground arith)

-- With every month skipped the walk raises, after however many advances.
pub skip_forward_none :
    (left : ℕ) (skip : List ℕ) (year month : ℕ)
    → ((m : ℕ) → IsMonth m → contains skip m ≡ true)
    → IsMonth month
    → skip_forward left skip (year, month) ≡ err no_billing_months
unfolding skip_forward
skip_forward_none zero skip year month all h = rw (all month h)
skip_forward_none (suc left) skip year month all h = rw (all month h) (
    skip_forward_none left skip (next_month (year, month)).0 (next_month (year, month)).1 all
      (next_month-IsMonth year month h))
