-- ===== src/Billing/Schedule/Front.antt =====
-- The dates of a schedule that fall in the calendar year of its start: they come first.
use fk_cesis_mms.Base.{
  ℕ, suc, ◌+◌, ◌≤◌, ◌<◌, ◌≡◌, refl, ap, Bool, true, false, List, [], ◌∷◌, arith, map, length,
  contains, ◌==◌, count_if, take, All, count_if-le-length, ==_iff,
}
use native.Mathlib.Decide.{ℕ_discrete, dec_lt}
use fk_cesis_mms.Base.Int.{ℤ}
use fk_cesis_mms.Errors.{ok}
use fk_cesis_mms.Billing.Calendar.{Date}
use fk_cesis_mms.Billing.Month.{next_month}
use fk_cesis_mms.Billing.Month.Skip.{IsMonth, index, index-next_month, next_month-IsMonth}
use fk_cesis_mms.Billing.Schedule.{Row, place, in_year}
use fk_cesis_mms.Billing.Schedule.Place.{IsDue, IsPlaced, place-cons}

abbrev pub dates : List Row → List Date
dates = map (λ r. r.0)

abbrev pub date_in : ℕ → Date → Bool
date_in y d = d.year == y

pub count-dates :
    (y : ℕ) (rows : List Row) → count_if (in_year y) rows ≡ count_if (date_in y) (dates rows)
count-dates y [] = refl
count-dates y (row ∷ rows) = rw (count-dates y rows)

-- Fewer amounts give the first dates of the longer schedule.
pub place-shorter :
    (skip : List ℕ) (due_day : ℕ) (longer shorter : List ℤ) (start : ℕ × ℕ) (rows : List Row)
    → place skip due_day longer start ≡ ok rows
    → length shorter ≤ length longer
    → (cut : List Row) × (place skip due_day shorter start ≡ ok cut)
      × (dates cut ≡ take (length shorter) (dates rows))
unfolding place
place-shorter skip due_day longer [] start rows e h = ([], refl, refl)
place-shorter skip due_day [] (b ∷ shorter) start rows e h = elim h [ ]
place-shorter skip due_day (a ∷ longer) (b ∷ shorter) start rows e h =
    let (due, rest, made, placed, shape) = place-cons skip due_day a longer start rows e in
    let (cut, placed', same) =
      place-shorter skip due_day longer shorter (next_month (due.year, due.month)) rest placed
        (omega arith) in
    ((due, b) ∷ cut, rw (made, placed'), rw shape (ap (λ l. due ∷ l) same))

-- The order of a found month and its start.
pub due-order :
    (skip : List ℕ) (due_day year month : ℕ) (due : Date)
    → IsMonth month
    → IsDue skip due_day (year, month) due
    → (year ≤ due.year) × (year ≡ due.year → month ≤ due.month)
due-order skip due_day year month due hm d = (
  omega (arith, d.first_free.at_or_after, d.first_free.month),
  λ e. omega (arith, d.first_free.at_or_after, d.first_free.month),
)

-- After the year nothing is in it.
pub none_later :
    (skip : List ℕ) (due_day year month y : ℕ) (rows : List Row)
    → IsMonth month
    → y < year
    → IsPlaced skip due_day (year, month) rows
    → count_if (date_in y) (dates rows) ≡ 0
none_later skip due_day year month y [] hm h p = refl
none_later skip due_day year month y ((due, a) ∷ rows) hm h (d, p) =
    let (after, _) = due-order skip due_day year month due hm d in
    let later = next_month-IsMonth due.year due.month d.first_free.month in
    let step = index-next_month due.year due.month d.first_free.month in
    ground (
      arith,
      none_later skip due_day (next_month (due.year, due.month)).0
          (next_month (due.year, due.month)).1 y rows later
          (omega (arith, step, later, d.first_free.month)) p,
    )

unfoldable pub AllIn : ℕ → List Date → Type 0
AllIn y ds = All (λ d. date_in y d ≡ true) (take (count_if (date_in y) ds) ds)

pub count_now :
    (y : ℕ) (due : Date) (ds : List Date)
    → date_in y due ≡ true
    → count_if (date_in y) (due ∷ ds) ≡ suc (count_if (date_in y) ds)
count_now y due ds now = rw now (omega arith)

pub in_front :
    (y : ℕ) (due : Date) (ds : List Date) → date_in y due ≡ true → AllIn y ds → AllIn y (due ∷ ds)
unfolding AllIn
in_front y due ds now rest = rw (count_now y due ds now) (now, rest)

pub AllIn-none : (y : ℕ) (ds : List Date) → count_if (date_in y) ds ≡ 0 → AllIn y ds
unfolding AllIn
AllIn-none y ds h = rw h tt

-- The dates in the year come first, and the months that are left bound their number.
pub first_in_year :
    (skip : List ℕ) (due_day y year month : ℕ) (rows : List Row)
    → IsMonth month
    → y ≤ year
    → IsPlaced skip due_day (year, month) rows
    → AllIn y (dates rows) × (year ≡ y → count_if (date_in y) (dates rows) + month ≤ 13)
unfolding AllIn
first_in_year skip due_day y year month [] hm h p = (tt, (λ e. omega arith))
first_in_year skip due_day y year month ((due, a) ∷ rows) hm h (d, p) =
    let (after, month_after) = due-order skip due_day year month due hm d in
    let later = next_month-IsMonth due.year due.month d.first_free.month in
    let step = index-next_month due.year due.month d.first_free.month in
    let (y', m') = next_month (due.year, due.month) in
    let grows : y ≤ y' = omega (arith, step, later, d.first_free.month) in
    let (front, bound) = first_in_year skip due_day y y' m' rows later grows p in
    elim (ℕ_discrete due.year y) [
      | yes now ↦ (
        in_front y due (dates rows) ((==_iff due.year y).1 now) front,
        (λ e.
            let in_month : month ≤ due.month = month_after (omega arith) in
            rw (count_now y due (dates rows) ((==_iff due.year y).1 now)) (elim (ℕ_discrete y' y) [
              | yes same ↦ omega (arith, bound same, step, d.first_free.month, in_month)
              | no other ↦
                  rw (none_later skip due_day y' m' y rows later (omega (arith, grows, other)) p)
                    (omega (arith, d.first_free.month, in_month))
            ])),
      )
      | no past ↦
          let nothing : count_if (date_in y) (dates ((due, a) ∷ rows)) ≡ 0 = ground (
            arith,
            none_later skip due_day y' m' y rows later
                (omega (arith, step, later, d.first_free.month)) p,
          ) in
          (AllIn-none y (dates ((due, a) ∷ rows)) nothing, (λ e. rw nothing (omega arith)))
    ]

-- In a billed month the first row is due at once.
pub due_now :
    (skip : List ℕ) (due_day year month : ℕ) (due : Date)
    → IsMonth month
    → contains skip month ≡ false
    → IsDue skip due_day (year, month) due
    → due.year ≡ year
due_now skip due_day year month due hm free d =
    elim (dec_lt (index (year, month)) (index (due.year, due.month))) [
      | yes later ↦
          let skipped = d.first_free.passed year month hm (omega arith) later in absurd (cc)
      | no at_once ↦ omega (arith, d.first_free.at_or_after, d.first_free.month)
    ]

pub some_in_year :
    (skip : List ℕ) (due_day year month : ℕ) (rows : List Row)
    → IsMonth month
    → contains skip month ≡ false
    → 1 ≤ length rows
    → IsPlaced skip due_day (year, month) rows
    → 1 ≤ count_if (date_in year) (dates rows)
some_in_year skip due_day year month [] hm free h p = omega arith
some_in_year skip due_day year month ((due, a) ∷ rows) hm free h (d, p) =
    let now : date_in year due ≡ true =
      (==_iff due.year year).1 (due_now skip due_day year month due hm free d) in
    rw (count_now year due (dates rows) now) (omega arith)

pub All-dates :
    (y : ℕ) (rows : List Row)
    → All (λ d. date_in y d ≡ true) (dates rows)
    → All (λ row. in_year y row ≡ true) rows
All-dates y [] h = tt
All-dates y (row ∷ rows) h = (h.0, All-dates y rows h.1)

pub dates-length : (y : ℕ) (rows : List Row) → count_if (date_in y) (dates rows) ≤ length rows
dates-length y rows = omega (arith, count-dates y rows, count_if-le-length (in_year y) rows)
