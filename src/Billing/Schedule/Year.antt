-- ===== src/Billing/Schedule/Year.antt =====
-- A schedule that is cut to the installments of the first calendar year stays in that year.
use fk_cesis_mms.Base.{
  ℕ, ◌+◌, ◌≤◌, ◌≡◌, refl, sym, ◌∙◌, true, false, some, none, List, arith, length, contains,
  count_if, All,
}
use fk_cesis_mms.Base.Int.{ℤ, pos}
use fk_cesis_mms.Base.Text.{Text}
use fk_cesis_mms.Errors.{ok, ◌>>=◌, >>=-eq-ok}
use fk_cesis_mms.Billing.Money.{split_amounts}
use fk_cesis_mms.Billing.Money.Bounds.{length-split_amounts}
use fk_cesis_mms.Billing.Plan.{MembershipPlan, skip_months_list}
use fk_cesis_mms.Billing.Month.{parse_first_billing_month}
use fk_cesis_mms.Billing.Month.Normalize.{parse-IsMonth}
use fk_cesis_mms.Billing.Month.Skip.{IsMonth}
use fk_cesis_mms.Billing.Schedule.{
  Row, place, in_year, installments, derive_installment_schedule,
  count_calendar_year_billable_installments,
}
use fk_cesis_mms.Billing.Schedule.Place.{place-IsPlaced}
use fk_cesis_mms.Billing.Schedule.Total.{
  derive-place, derive-IsPlaced, derive-sum, installments-pos,
}
use fk_cesis_mms.Billing.Schedule.Front.{
  dates, date_in, count-dates, place-shorter, AllIn, first_in_year, some_in_year, All-dates,
  dates-length,
}

-- As many amounts as a schedule has dates in its first year are placed in that year.
cut_in_year :
    (skip : List ℕ) (due_day : ℕ) (longer shorter : List ℤ) (year month : ℕ) (full : List Row)
    → IsMonth month
    → place skip due_day longer (year, month) ≡ ok full
    → length full ≡ length longer
    → length shorter ≡ count_if (date_in year) (dates full)
    → (cut : List Row) × (place skip due_day shorter (year, month) ≡ ok cut)
      × All (λ row. in_year year row ≡ true) cut
unfolding AllIn
cut_in_year skip due_day longer shorter year month full hm made many number =
    let placed = place-IsPlaced skip due_day longer year month full hm made in
    let (cut, cut_made, cut_dates) =
      place-shorter skip due_day longer shorter (year, month) full made
        (omega (arith, dates-length year full, many, number)) in
    let front = (first_in_year skip due_day year year month full hm (omega arith) placed).0 in
    let in_front = rw (← number) at front in
    (cut, cut_made, All-dates year cut (rw (← cut_dates) at in_front))

module _ (plan : MembershipPlan) (value : Text) (year month : ℕ)
    (parsed : parse_first_billing_month value ≡ ok (some (year, month))) where
  count-derive : count_calendar_year_billable_installments plan value ≡ (
      derive_installment_schedule plan (pos 0) value none >>= λ (rows : List Row).
      ok (count_if (in_year year) rows))
  unfolding count_calendar_year_billable_installments
  count-derive = rw parsed

  pub count-rows :
      (k : ℕ)
      → count_calendar_year_billable_installments plan value ≡ ok k
      → (rows : List Row) × (derive_installment_schedule plan (pos 0) value none ≡ ok rows)
        × (count_if (in_year year) rows ≡ k)
  count-rows k counted =
      let (rows, made, number) =
        >>=-eq-ok (derive_installment_schedule plan (pos 0) value none)
          (λ (rows : List Row). ok (count_if (in_year year) rows)) (sym count-derive ∙ counted) in
      (rows, made, cc)

  -- The calendar-year count of a start in a billed month is at least 1, at most the number of
  -- months from the start to December, and at most the plan's number of installments.
  pub count_bounds :
      (k : ℕ)
      → contains (skip_months_list plan) month ≡ false
      → count_calendar_year_billable_installments plan value ≡ ok k
      → (1 ≤ k) × (k + month ≤ 13) × (k ≤ installments plan none)
  count_bounds k free counted =
      let hm = parse-IsMonth value year month parsed in
      let (full, made, number) = count-rows k counted in
      let skip = skip_months_list plan in
      let due_day = plan.payment_due_day in
      let same = count-dates year full in
      let many = (derive-sum plan (pos 0) value none full made).1 in
      let placed = derive-IsPlaced plan (pos 0) value none year month parsed full made in
      let bound =
        (first_in_year skip due_day year year month full hm (omega arith) placed).1 refl in
      let now =
        some_in_year skip due_day year month full hm free
          (omega (arith, many, installments-pos plan none)) placed in
      (
        omega (arith, now, same, number),
        omega (arith, bound, same, number),
        omega (arith, dates-length year full, same, number, many),
      )

  -- From a start in a month that the plan bills, the schedule of the saved count exists, has that
  -- many rows, and all of them are due in the calendar year of the start.
  pub capped_in_year :
      (total : ℤ) (k : ℕ)
      → contains (skip_months_list plan) month ≡ false
      → count_calendar_year_billable_installments plan value ≡ ok k
      → (rows : List Row) × (derive_installment_schedule plan total value (some k) ≡ ok rows)
        × (length rows ≡ k)
        × All (λ row. in_year year row ≡ true) rows
  capped_in_year total k free counted =
      let (full, made, number) = count-rows k counted in
      let (at_least, _, _) = count_bounds k free counted in
      let all = split_amounts (pos 0) (installments plan none) in
      let some_amounts = split_amounts total (installments plan (some k)) in
      let k_rows : installments plan (some k) ≡ k = omega (arith, at_least) in
      let (cut, cut_made, inside) =
        cut_in_year (skip_months_list plan) plan.payment_due_day all some_amounts year month full
          (parse-IsMonth value year month parsed)
          (sym (derive-place plan (pos 0) value none year month parsed) ∙ made)
          ((derive-sum plan (pos 0) value none full made).1
            ∙ sym (
                length-split_amounts (pos 0) (installments plan none) (installments-pos plan none)))
          (length-split_amounts total (installments plan (some k)) (installments-pos plan (some k))
            ∙ k_rows
            ∙ sym number
            ∙ count-dates year full) in
      let all_made = derive-place plan total value (some k) year month parsed ∙ cut_made in
      (cut, all_made, (derive-sum plan total value (some k) cut all_made).1 ∙ k_rows, inside)
