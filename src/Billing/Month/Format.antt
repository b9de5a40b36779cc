-- ===== src/Billing/Month/Format.antt =====
-- Months as texts: reading back what was written, and the order of the texts.
use fk_cesis_mms.Base.{
  ℕ, ◌+◌, ◌/◌, ◌%◌, ◌<◌, ◌≡◌, refl, Bool, false, ◌&&◌, ◌||◌, some, [], ◌∷◌, ◌++◌, arith, ltb, ◌==◌,
  length,
}
use fk_cesis_mms.Base.Text.{Text, text_lt, split_once, before_first, int, padded, is_blank}
use fk_cesis_mms.Base.Int.{pos}
use fk_cesis_mms.Base.Text.Digits.{
  AreDigits, before_first-append, padded-AreDigits, int-padded, length-padded,
}
use fk_cesis_mms.Base.Text.Fixed.{padded-two, padded-four}
use fk_cesis_mms.Errors.{ok}
use fk_cesis_mms.Billing.Month.{format_month, parse_first_billing_month}
use fk_cesis_mms.Billing.Month.Skip.{IsMonth, index}

split_once-digits : (s t : Text) → AreDigits s → split_once b'-' (s ++ b'-' ∷ t) ≡ some (s, t)
split_once-digits [] t h = refl
split_once-digits (c ∷ s) t h = rw (split_once-digits s t h.1) (ground arith)

not-is_blank : (s t : Text) → is_blank (s ++ b'-' ∷ t) ≡ false
not-is_blank [] t = refl
not-is_blank (c ∷ s) t = refl

-- Reading a month back gives the year and the month that were written, for a year of at most four
-- digits and a month from 1 to 12.
pub parse-format_month :
    (year month : ℕ)
    → year < 10000
    → IsMonth month
    → parse_first_billing_month (format_month year month) ≡ ok (some (year, month))
unfolding parse_first_billing_month format_month
parse-format_month year month hy hm =
    let year_length : length (padded 4 year) ≡ 4 = length-padded 3 year (omega arith) in
    let month_length : length (padded 2 month) ≡ 2 = length-padded 1 month (omega arith) in
    rw
      (
        not-is_blank (padded 4 year) (padded 2 month),
        split_once-digits (padded 4 year) (padded 2 month) (padded-AreDigits 4 year),
        int-padded 4 year,
        int-padded 2 month,
        year_length,
        month_length,
      )
      (ground arith)

-- The year of a month's text.
pub year-format_month :
    (year month : ℕ) → int (before_first b'-' (format_month year month)) ≡ some (pos year)
unfolding format_month
year-format_month year month =
    rw (before_first-append (padded 4 year) (padded 2 month) (padded-AreDigits 4 year))
      (int-padded 4 year)

pub not_blank-format_month : (year month : ℕ) → is_blank (format_month year month) ≡ false
unfolding format_month
not_blank-format_month year month = not-is_blank (padded 4 year) (padded 2 month)

-- Two digits decide the order as the number does that they make.
join_digits :
    (n n' : ℕ) (rest : Bool)
    → (ltb (b'0' + n / 10) (b'0' + n' / 10)
        || ((b'0' + n / 10) == (b'0' + n' / 10)
            && (ltb (b'0' + n % 10) (b'0' + n' % 10)
                || ((b'0' + n % 10) == (b'0' + n' % 10) && rest))))
      ≡ (ltb (b'0' + n) (b'0' + n') || ((b'0' + n) == (b'0' + n') && rest))
join_digits n n' rest = ground arith

-- The order of the texts of two months is that of the months, for years of at most four digits and
-- months from 1 to 12.
pub text_lt-format_month :
    (year month year' month' : ℕ)
    → year < 10000
    → year' < 10000
    → IsMonth month
    → IsMonth month'
    → text_lt (format_month year month) (format_month year' month')
      ≡ ltb (index (year, month)) (index (year', month'))
unfolding format_month
text_lt-format_month year month year' month' hy hy' hm hm' =
    rw
      (
        padded-four year hy,
        padded-four year' hy',
        padded-two month (omega arith),
        padded-two month' (omega arith),
        join_digits (year / 10 / 10) (year' / 10 / 10),
        join_digits (year / 10) (year' / 10),
        join_digits year year',
        join_digits month month',
      )
      (ground arith)
