-- ===== src/Billing/Schedule/Total.antt =====
-- What a schedule adds up to, where its dates lie, and when there is one.
use fk_cesis_mms.Base.{
  ℕ, ◌+◌, ◌*◌, ◌≤◌, ◌≡◌, sym, ap, ◌∙◌, false, Option, none, some, List, arith, map, length,
  contains, [], ◌∷◌, ◌≢◌, suc, refl,
}
use fk_cesis_mms.Base.Int.{ℤ, pos, negsuc, sum_ℤ}
use fk_cesis_mms.Base.Text.{Text, int, before_first}
use fk_cesis_mms.Errors.{Error, Result, ok, err, bad_date, ◌>>=◌, or_raise, not_an_int, >>=-eq-ok}
use fk_cesis_mms.Billing.Money.{split_amounts}
use fk_cesis_mms.Billing.Money.Bounds.{sum-split_amounts, length-split_amounts}
use fk_cesis_mms.Billing.Plan.{MembershipPlan, skip_months_list}
use fk_cesis_mms.Billing.Month.{skip_forward, parse_first_billing_month}
use fk_cesis_mms.Billing.Month.Normalize.{parse-IsMonth}
use fk_cesis_mms.Billing.Month.Skip.{IsMonth, index}
use fk_cesis_mms.Billing.Schedule.{
  Row, place, installments, placed_from, placed_from_season, derive_installment_schedule,
}
use fk_cesis_mms.Billing.Schedule.Place.{place-amounts, place-IsPlaced, IsPlaced, place_total}

pub length-map {ℓ κ} :
    {A : Type ℓ} {B : Type κ} (f : A → B) (xs : List A) → length (map f xs) ≡ length xs
length-map f [] = refl
length-map f (x ∷ xs) = ap suc (length-map f xs)

then_raise {ℓ κ} :
    {A : Type ℓ} {B : Type κ} (m : Result A) (x : Error) (b : B) → (m >>= λ _. err x) ≢ ok b
then_raise (ok a) x b e = cc
then_raise (err y) x b e = cc

placed_from_season-amounts :
    (skip : List ℕ) (due_day : ℕ) (amounts : List ℤ) (month : ℕ) (year : ℤ) (rows : List Row)
    → placed_from_season skip due_day amounts month year ≡ ok rows
    → map (λ r. r.1) rows ≡ amounts
placed_from_season-amounts skip due_day amounts month (pos y) rows e =
    place-amounts skip due_day amounts (y, month) rows e
placed_from_season-amounts skip due_day amounts month (negsuc y) rows e =
    absurd (then_raise (skip_forward 12 skip (0, month)) bad_date rows e)

placed_from-amounts :
    (plan : MembershipPlan) (amounts : List ℤ) (start : Option (ℕ × ℕ)) (rows : List Row)
    → placed_from plan amounts start ≡ ok rows
    → map (λ r. r.1) rows ≡ amounts
placed_from-amounts plan amounts (some start) rows e =
    place-amounts (skip_months_list plan) plan.payment_due_day amounts start rows e
placed_from-amounts plan amounts none rows e =
    let (year, read, placed) =
      >>=-eq-ok (or_raise (int (before_first b'/' plan.season)) not_an_int)
        (placed_from_season (skip_months_list plan) plan.payment_due_day amounts
          plan.first_installment_month)
        e in
    placed_from_season-amounts (skip_months_list plan) plan.payment_due_day amounts
      plan.first_installment_month year rows placed

pub installments-pos : (plan : MembershipPlan) (count : Option ℕ) → 1 ≤ installments plan count
installments-pos plan none = omega arith
installments-pos plan (some n) = omega arith

derive-placed :
    (plan : MembershipPlan) (total : ℤ) (value : Text) (count : Option ℕ) (rows : List Row)
    → derive_installment_schedule plan total value count ≡ ok rows
    → (start : Option (ℕ × ℕ)) × (parse_first_billing_month value ≡ ok start)
      × (placed_from plan (split_amounts total (installments plan count)) start ≡ ok rows)
unfolding derive_installment_schedule
derive-placed plan total value count rows e =
    >>=-eq-ok (parse_first_billing_month value)
      (placed_from plan (split_amounts total (installments plan count))) e

-- The rows of a schedule add up to the total, and are as many as were asked for.
pub derive-sum :
    (plan : MembershipPlan) (total : ℤ) (value : Text) (count : Option ℕ) (rows : List Row)
    → derive_installment_schedule plan total value count ≡ ok rows
    → (sum_ℤ (map (λ r. r.1) rows) ≡ total) × (length rows ≡ installments plan count)
derive-sum plan total value count rows e =
    let n = installments plan count in
    let (start, parsed, placed) = derive-placed plan total value count rows e in
    let amounts = placed_from-amounts plan (split_amounts total n) start rows placed in
    (
      rw amounts (sum-split_amounts total n),
      sym (length-map (λ r. r.1) rows)
          ∙ ap length amounts
          ∙ length-split_amounts total n (installments-pos plan count),
    )

module _ (plan : MembershipPlan) (total : ℤ) (value : Text) (count : Option ℕ) (year month : ℕ)
    (parsed : parse_first_billing_month value ≡ ok (some (year, month))) where
  pub derive-place :
      derive_installment_schedule plan total value count
      ≡ place
          (skip_months_list plan)
          plan.payment_due_day
          (split_amounts total (installments plan count))
          (year, month)
  unfolding derive_installment_schedule
  derive-place = rw parsed

  -- From a given month the dates are the due days of the first months that the plan bills, each
  -- after the one before.
  pub derive-IsPlaced :
      (rows : List Row)
      → derive_installment_schedule plan total value count ≡ ok rows
      → IsPlaced (skip_months_list plan) plan.payment_due_day (year, month) rows
  derive-IsPlaced rows e =
      place-IsPlaced (skip_months_list plan) plan.payment_due_day
        (split_amounts total (installments plan count)) year month rows
        (parse-IsMonth value year month parsed) (sym derive-place ∙ e)

  -- From a given month there is a schedule wherever the plan bills some month of the year and has a
  -- due day, the year is not 0, and 13 months for each installment end by December 9999.
  pub derive_total :
      (free : ℕ)
      → IsMonth free
      → contains (skip_months_list plan) free ≡ false
      → 1 ≤ plan.payment_due_day
      → 1 ≤ year
      → index (year, month) + 13 * installments plan count ≤ index (9999, 12)
      → (rows : List Row) × (derive_installment_schedule plan total value count ≡ ok rows)
  derive_total free hf is_free hd hy limit =
      let (rows, placed) =
        place_total (skip_months_list plan) plan.payment_due_day
          (split_amounts total (installments plan count)) year month free
          (parse-IsMonth value year month parsed) hf is_free hd hy
          (omega (
            arith,
            length-split_amounts total (installments plan count) (installments-pos plan count),
          )) in
      (rows, derive-place ∙ placed)
