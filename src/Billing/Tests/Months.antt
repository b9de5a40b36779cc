-- ===== src/Billing/Tests/Months.antt =====
-- Months and schedules of the plan.
use fk_cesis_mms.Base.{
  ℕ, ◌≡◌, ◌≤◌, ◌+◌, refl, [], ◌∷◌, true, false, none, some, List, map, length, contains, All, arith,
  ltb,
}
use fk_cesis_mms.Base.Int.{pos, sum_ℤ, ◌*ℕ◌, ◌-ℤ◌}
use fk_cesis_mms.Base.Text.{codes, int, read_signed, read_digits, text_lt}
use fk_cesis_mms.Errors.{ok}
use fk_cesis_mms.Billing.Plan.{skip_months_list, months_of, month_of, MembershipPlan, all_months}
use fk_cesis_mms.Billing.Calendar.{days_in}
use fk_cesis_mms.Billing.Money.{split_amounts, installment, money_ratio}
use fk_cesis_mms.Billing.Month.{
  parse_first_billing_month, format_month, skip_forward, normalize_first_billing_month,
}
use fk_cesis_mms.Billing.Month.Skip.{IsMonth, index, IsFirstFree}
use fk_cesis_mms.Billing.Month.Format.{parse-format_month, text_lt-format_month}
use fk_cesis_mms.Billing.Month.Normalize.{normalize-IsFirstFree}
use fk_cesis_mms.Billing.Schedule.{
  Row, due_date, place, derive_installment_schedule, installments, in_year,
  count_calendar_year_billable_installments,
}
use fk_cesis_mms.Billing.Schedule.Total.{derive-sum, derive-IsPlaced, derive_total}
use fk_cesis_mms.Billing.Schedule.Place.{IsPlaced}
use fk_cesis_mms.Billing.Schedule.Year.{count_bounds, capped_in_year}
use fk_cesis_mms.Billing.Tests.{plan, july, october}

july_parsed : parse_first_billing_month july ≡ ok (some (2026, 7))
unfolding parse_first_billing_month int read_signed read_digits
july_parsed = refl

october_parsed : parse_first_billing_month october ≡ ok (some (2026, 10))
unfolding parse_first_billing_month int read_signed read_digits
october_parsed = refl

skipped : skip_months_list plan ≡ 1 ∷ 7 ∷ []
unfolding skip_months_list months_of month_of int read_signed read_digits
skipped = refl

bills : (m : ℕ) → contains (1 ∷ 7 ∷ []) m ≡ false → contains (skip_months_list plan) m ≡ false
bills m h = rw skipped h

counted : count_calendar_year_billable_installments plan october ≡ ok 3
unfolding count_calendar_year_billable_installments derive_installment_schedule place due_date
    skip_forward split_amounts installment money_ratio ◌-ℤ◌ ◌*ℕ◌ parse_first_billing_month int
    read_signed read_digits days_in skip_months_list months_of month_of
counted = refl

-- A plan that bills no month.
abbrev never : MembershipPlan
never = record plan { skip_months = codes "1,2,3,4,5,6,7,8,9,10,11,12" }

skipped_all : skip_months_list never ≡ all_months
unfolding skip_months_list months_of month_of int read_signed read_digits
skipped_all = refl

never_bills : (m : ℕ) → IsMonth m → contains (skip_months_list never) m ≡ true
never_bills m h = rw skipped_all (ground arith)

normalize-IsFirstFree_example :
    (found : ℕ × ℕ) × (normalize_first_billing_month plan july ≡ ok (format_month found.0 found.1))
    × IsFirstFree (skip_months_list plan) (2026, 7) found
normalize-IsFirstFree_example =
    normalize-IsFirstFree plan july 2026 7 july_parsed 10 (omega arith) (bills 10 refl)

parse-format_month_example : parse_first_billing_month (format_month 2026 9) ≡ ok (some (2026, 9))
parse-format_month_example = parse-format_month 2026 9 (omega arith) (omega arith)

text_lt-format_month_example :
    text_lt (format_month 2026 9) (format_month 2026 10) ≡ ltb (index (2026, 9)) (index (2026, 10))
text_lt-format_month_example =
    text_lt-format_month 2026 9 2026 10 (omega arith) (omega arith) (omega arith) (omega arith)

abbrev october_rows : List Row
october_rows =
    (record { year = 2026; month = 10; day = 15 }, pos 3333)
    ∷ (record { year = 2026; month = 11; day = 15 }, pos 3333)
    ∷ (record { year = 2026; month = 12; day = 15 }, pos 3334)
    ∷ []

october_placed : derive_installment_schedule plan (pos 10_000) october (some 3) ≡ ok october_rows
unfolding derive_installment_schedule place due_date skip_forward split_amounts installment
    money_ratio ◌-ℤ◌ ◌*ℕ◌ parse_first_billing_month int read_signed read_digits days_in
    skip_months_list months_of month_of
october_placed = refl

derive-sum_example :
    (sum_ℤ (map (λ r. r.1) october_rows) ≡ pos 10_000)
    × (length october_rows ≡ installments plan (some 3))
derive-sum_example = derive-sum plan (pos 10_000) october (some 3) october_rows october_placed

derive-IsPlaced_example :
    IsPlaced (skip_months_list plan) plan.payment_due_day (2026, 10) october_rows
derive-IsPlaced_example =
    derive-IsPlaced plan (pos 10_000) october (some 3) 2026 10 october_parsed october_rows
      october_placed

derive_total_example :
    (rows : List Row) × (derive_installment_schedule plan (pos 10_000) july none ≡ ok rows)
derive_total_example =
    derive_total plan (pos 10_000) july none 2026 7 july_parsed 10 (omega arith) (bills 10 refl)
      (omega arith) (omega arith) (omega arith)

count_bounds_example : (1 ≤ 3) × (3 + 10 ≤ 13) × (3 ≤ installments plan none)
count_bounds_example = count_bounds plan october 2026 10 october_parsed 3 (bills 10 refl) counted

capped_in_year_example :
    (rows : List Row) × (derive_installment_schedule plan (pos 20_000) october (some 3) ≡ ok rows)
    × (length rows ≡ 3)
    × All (λ row. in_year 2026 row ≡ true) rows
capped_in_year_example =
    capped_in_year plan october 2026 10 october_parsed (pos 20_000) 3 (bills 10 refl) counted

abbrev half : ℕ
half = 5000

abbrev three : ℕ
three = 3
