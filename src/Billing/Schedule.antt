-- ===== src/Billing/Schedule.antt =====
-- `derive_installment_schedule` of apps/billing/services.py, and the number of installments that
-- fall in the calendar year of the first one.
pub mod Place
pub mod Total
pub mod Front
pub mod Year
use fk_cesis_mms.Base.{ℕ, Bool, Option, none, some, List, [], ◌∷◌, ◌==◌, min, max, count_if}
use fk_cesis_mms.Base.Int.{ℤ, pos, negsuc}
use fk_cesis_mms.Base.Text.{Text, before_first, int}
use fk_cesis_mms.Errors.{Result, ok, err, ◌>>=◌, or_raise, month_format, not_an_int, bad_date}
use fk_cesis_mms.Billing.Money.{split_amounts}
use fk_cesis_mms.Billing.Calendar.{Date, month_range, make_date}
use fk_cesis_mms.Billing.Plan.{MembershipPlan, skip_months_list}
use fk_cesis_mms.Billing.Month.{next_month, parse_first_billing_month, skip_forward}

-- A row of a schedule: the due date and the amount.
abbrev pub Row : Type 0
Row = Date × ℤ

-- The date of one round: the next month that is billed, and the due day cut to its length.
unfoldable pub due_date : List ℕ → ℕ → ℕ × ℕ → Result Date
unfolding skip_forward
due_date skip due_day start = do
  (year, month) ← skip_forward 12 skip start
  last ← month_range year month
  make_date year month (min due_day last)

-- The loop over the amounts; `year` and `month` are those of the last date, one month on.
unfoldable pub place : List ℕ → ℕ → List ℤ → ℕ × ℕ → Result (List Row)
unfolding due_date
place skip due_day [] start = ok []
place skip due_day (amount ∷ amounts) start = do
  due ← due_date skip due_day start
  rest ← place skip due_day amounts (next_month (due.year, due.month))
  ok ((due, amount) ∷ rest)

-- `max(int(installment_count) if installment_count is not None else plan.installment_count, 1)`
abbrev pub installments : MembershipPlan → Option ℕ → ℕ
installments plan none = max plan.installment_count 1
installments plan (some n) = max n 1

-- The loop from `plan.first_installment_month` of the season's first year. `date` raises for each
-- year below 1, but the loop that skips months comes first.
abbrev placed_from_season : List ℕ → ℕ → List ℤ → ℕ → ℤ → Result (List Row)
placed_from_season skip due_day amounts month (pos year) = place skip due_day amounts (year, month)
placed_from_season skip due_day amounts month (negsuc _) =
    skip_forward 12 skip (0, month) >>= λ _. err bad_date

abbrev placed_from : MembershipPlan → List ℤ → Option (ℕ × ℕ) → Result (List Row)
placed_from plan amounts (some start) =
    place (skip_months_list plan) plan.payment_due_day amounts start
placed_from plan amounts none = do
  year ← or_raise (int (before_first b'/' plan.season)) not_an_int
  placed_from_season (skip_months_list plan) plan.payment_due_day amounts
      plan.first_installment_month year

unfoldable pub derive_installment_schedule :
    MembershipPlan → ℤ → Text → Option ℕ → Result (List Row)
unfolding place split_amounts parse_first_billing_month
derive_installment_schedule plan total first_billing_month installment_count = do
  let amounts = split_amounts total (installments plan installment_count)
  parsed ← parse_first_billing_month first_billing_month
  placed_from plan amounts parsed

abbrev pub in_year : ℕ → Row → Bool
in_year y row = row.0.year == y

unfoldable pub count_calendar_year_billable_installments : MembershipPlan → Text → Result ℕ
unfolding derive_installment_schedule
count_calendar_year_billable_installments plan first_billing_month = do
  parsed ← parse_first_billing_month first_billing_month
  (start_year, _) ← or_raise parsed month_format
  schedule ← derive_installment_schedule plan (pos 0) first_billing_month none
  ok (count_if (in_year start_year) schedule)
