-- ===== src/Billing/Schedule/Place.antt =====
-- The loop that places amounts on successive billing months.
use fk_cesis_mms.Base.{
  ℕ, ◌+◌, ◌*◌, ◌≤◌, ◌≡◌, refl, false, List, [], ◌∷◌, arith, map, min, contains, length, ap,
}
use fk_cesis_mms.Base.Int.{ℤ}
use fk_cesis_mms.Errors.{ok, >>=-eq-ok, ◌>>=◌}
use fk_cesis_mms.Billing.Calendar.{Date, days_in, month_range, make_date}
use fk_cesis_mms.Billing.Month.{next_month, skip_forward}
use fk_cesis_mms.Billing.Month.Skip.{
  IsMonth, index, IsFirstFree, skip_forward-IsFirstFree, next_month-IsMonth, index-next_month,
  skip_forward_total, skip_forward-index-le,
}
use fk_cesis_mms.Billing.Schedule.{Row, due_date, place}

-- What `place` makes of a month: its date in a free month, then the rest from the next month on.
pub record IsDue (skip : List ℕ) (due_day : ℕ) (start : ℕ × ℕ) (due : Date) : Type 0 where
  pub first_free : IsFirstFree skip start (due.year, due.month)
  pub day : due.day ≡ min due_day (days_in due.year due.month)
  pub in_calendar : (1 ≤ due.year) × (due.year ≤ 9999) × (1 ≤ due.day)

abbrev pub IsPlaced : List ℕ → ℕ → ℕ × ℕ → List Row → Type 0
IsPlaced skip due_day start [] = Unit
IsPlaced skip due_day start ((due, amount) ∷ rows) =
    IsDue skip due_day start due × IsPlaced skip due_day (next_month (due.year, due.month)) rows

-- The date of a month that was found.
due_of :
    (year month due_day last : ℕ) (due : Date)
    → month_range year month ≡ ok last
    → make_date year month (min due_day last) ≡ ok due
    → (due.year ≡ year)
      × (due.month ≡ month)
      × (due.day ≡ min due_day (days_in year month))
      × (1 ≤ year)
      × (year ≤ 9999)
      × (1 ≤ due.day)
due_of year month due_day last due e d = ground arith

due_date-found :
    (skip : List ℕ) (due_day : ℕ) (start : ℕ × ℕ) (due : Date)
    → due_date skip due_day start ≡ ok due
    → (skip_forward 12 skip start ≡ ok (due.year, due.month))
      × (due.day ≡ min due_day (days_in due.year due.month))
      × (1 ≤ due.year)
      × (due.year ≤ 9999)
      × (1 ≤ due.day)
unfolding due_date
due_date-found skip due_day start due e = ground arith

pub place-cons :
    (skip : List ℕ) (due_day : ℕ) (amount : ℤ) (amounts : List ℤ) (start : ℕ × ℕ) (rows : List Row)
    → place skip due_day (amount ∷ amounts) start ≡ ok rows
    → (due : Date) × (rest : List Row) × (due_date skip due_day start ≡ ok due)
      × (place skip due_day amounts (next_month (due.year, due.month)) ≡ ok rest)
      × (rows ≡ (due, amount) ∷ rest)
unfolding place
place-cons skip due_day amount amounts start rows e =
    let (due, made, e1) =
      >>=-eq-ok (due_date skip due_day start)
        (λ (due : Date). place skip due_day amounts (next_month (due.year, due.month)) >>= λ rest.
          ok ((due, amount) ∷ rest))
        e in
    let (rest, placed, e2) =
      >>=-eq-ok (place skip due_day amounts (next_month (due.year, due.month)))
        (λ (rest : List Row). ok ((due, amount) ∷ rest)) e1 in
    (due, rest, made, placed, cc)

due_date-IsDue :
    (skip : List ℕ) (due_day year month : ℕ) (due : Date)
    → IsMonth month
    → due_date skip due_day (year, month) ≡ ok due
    → IsDue skip due_day (year, month) due
due_date-IsDue skip due_day year month due hm e =
    let (found, day, low, high, positive) = due_date-found skip due_day (year, month) due e in
    record {
      first_free = skip_forward-IsFirstFree 12 skip year month (due.year, due.month) hm found;
      day = day;
      in_calendar = (low, high, positive);
    }

-- A schedule that is returned has the amounts in their order.
pub place-amounts :
    (skip : List ℕ) (due_day : ℕ) (amounts : List ℤ) (start : ℕ × ℕ) (rows : List Row)
    → place skip due_day amounts start ≡ ok rows
    → map (λ r. r.1) rows ≡ amounts
unfolding place
place-amounts skip due_day [] start rows e = let none_left : [] ≡ rows = cc in rw (← none_left)
place-amounts skip due_day (amount ∷ amounts) start rows e =
    let (due, rest, made, placed, shape) = place-cons skip due_day amount amounts start rows e in
    let kept = place-amounts skip due_day amounts (next_month (due.year, due.month)) rest placed in
    rw shape (ap (λ l. amount ∷ l) kept)

-- It has its dates placed.
pub place-IsPlaced :
    (skip : List ℕ) (due_day : ℕ) (amounts : List ℤ) (year month : ℕ) (rows : List Row)
    → IsMonth month
    → place skip due_day amounts (year, month) ≡ ok rows
    → IsPlaced skip due_day (year, month) rows
unfolding place
place-IsPlaced skip due_day [] year month rows hm e =
    let none_left : [] ≡ rows = cc in rw (← none_left) tt
place-IsPlaced skip due_day (amount ∷ amounts) year month rows hm e =
    let (due, rest, made, placed, shape) =
      place-cons skip due_day amount amounts (year, month) rows e in
    let is_due = due_date-IsDue skip due_day year month due hm made in
    let later = next_month-IsMonth due.year due.month is_due.first_free.month in
    rw shape (
      is_due,
      place-IsPlaced skip due_day amounts (next_month (due.year, due.month)).0
          (next_month (due.year, due.month)).1 rest later placed,
    )

-- The day that the loop asks for is in the month.
days_in-bounds : (year month : ℕ) → (28 ≤ days_in year month) × (days_in year month ≤ 31)
unfolding days_in
days_in-bounds year month = ground arith

-- A month within the calendar has a due date.
date_made :
    (skip : List ℕ) (due_day : ℕ) (start found : ℕ × ℕ)
    → skip_forward 12 skip start ≡ ok found
    → IsMonth found.1
    → 1 ≤ found.0
    → found.0 ≤ 9999
    → 1 ≤ due_day
    → due_date skip due_day start
      ≡ ok (record { year = found.0; month = found.1; day = min due_day (days_in found.0 found.1) })
unfolding due_date
date_made skip due_day start (y, m) e hm low high hd = rw e (ground (arith, days_in-bounds y m))

due_date_total :
    (skip : List ℕ) (due_day year month free : ℕ)
    → IsMonth month
    → IsMonth free
    → contains skip free ≡ false
    → 1 ≤ due_day
    → 1 ≤ year
    → index (year, month) + 12 ≤ index (9999, 12)
    → (due : Date) × (due_date skip due_day (year, month) ≡ ok due)
      × (index (due.year, due.month) ≤ index (year, month) + 12)
due_date_total skip due_day year month free hm hf is_free hd hy limit =
    let (found, e) = skip_forward_total skip year month free hm hf is_free in
    let first = skip_forward-IsFirstFree 12 skip year month found hm e in
    let near = skip_forward-index-le 12 skip year month found hm e in
    (
      record { year = found.0; month = found.1; day = min due_day (days_in found.0 found.1) },
      date_made skip due_day (year, month) found e first.month
          (omega (arith, first.at_or_after, first.month)) (omega (arith, first.month)) hd,
      near,
    )

-- Where the plan bills some month, the schedule exists, up to the end of the calendar.
pub place_total :
    (skip : List ℕ) (due_day : ℕ) (amounts : List ℤ) (year month free : ℕ)
    → IsMonth month
    → IsMonth free
    → contains skip free ≡ false
    → 1 ≤ due_day
    → 1 ≤ year
    → index (year, month) + 13 * length amounts ≤ index (9999, 12)
    → (rows : List Row) × (place skip due_day amounts (year, month) ≡ ok rows)
unfolding place
place_total skip due_day [] year month free hm hf is_free hd hy limit = ([], refl)
place_total skip due_day (amount ∷ amounts) year month free hm hf is_free hd hy limit =
    let (due, made, near) =
      due_date_total skip due_day year month free hm hf is_free hd hy (omega arith) in
    let is_due = due_date-IsDue skip due_day year month due hm made in
    let hm' = next_month-IsMonth due.year due.month is_due.first_free.month in
    let step = index-next_month due.year due.month is_due.first_free.month in
    let (rest, placed) =
      place_total skip due_day amounts (next_month (due.year, due.month)).0
        (next_month (due.year, due.month)).1 free hm' hf is_free hd
        (omega (arith, step, hm', is_due.in_calendar.0, is_due.first_free.month))
        (omega (arith, step, near)) in
    ((due, amount) ∷ rest, rw (made, placed))
