-- ===== src/Billing/Calendar.antt =====
-- The parts of Python's `datetime` and `calendar` that apps/billing uses.
use fk_cesis_mms.Base.{ℕ, ◌%◌, Bool, not, ◌&&◌, ◌||◌, ltb, leb, ◌==◌, if◌then◌else◌}
use fk_cesis_mms.Errors.{Result, ok, err, bad_date}

-- `datetime.date`
pub record Date : Type 0 where
  pub year : ℕ
  pub month : ℕ
  pub day : ℕ

-- `calendar.isleap`
abbrev pub is_leap : ℕ → Bool
is_leap y = y % 4 == 0 && (not (y % 100 == 0) || y % 400 == 0)

-- The days of a month from 1 to 12.
unfoldable pub days_in : ℕ → ℕ → ℕ
days_in y m =
    if m == 2
    then if is_leap y then 29 else 28
    else if m == 4 || m == 6 || m == 9 || m == 11
    then 30
    else 31

-- `calendar.monthrange(y, m)[1]`
abbrev pub month_range : ℕ → ℕ → Result ℕ
month_range y m = if leb 1 m && leb m 12 then ok (days_in y m) else err bad_date

-- `datetime.date(y, m, d)`
abbrev pub make_date : ℕ → ℕ → ℕ → Result Date
make_date y m d =
    if (leb 1 y && leb y 9999) && (leb 1 m && leb m 12) && (leb 1 d && leb d (days_in y m))
    then ok (record { year = y; month = m; day = d })
    else err bad_date

-- `a <= b`, for dates.
abbrev pub date_le : Date → Date → Bool
date_le a b =
    ltb a.year b.year
    || (a.year == b.year && (ltb a.month b.month || (a.month == b.month && leb a.day b.day)))
