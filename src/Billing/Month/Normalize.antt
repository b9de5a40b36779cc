-- ===== src/Billing/Month/Normalize.antt =====
-- What `normalize_first_billing_month` gives, and when it gives something.
use fk_cesis_mms.Base.{ℕ, ◌<◌, ◌≡◌, sym, false, true, none, some, arith, contains, inl, inr}
use fk_cesis_mms.Base.Text.{Text}
use fk_cesis_mms.Errors.{ok, err, Result-cases, no_billing_months}
use fk_cesis_mms.Billing.Plan.{MembershipPlan, skip_months_list}
use fk_cesis_mms.Billing.Month.{
  format_month, parse_first_billing_month, skip_forward, normalize_first_billing_month,
}
use fk_cesis_mms.Billing.Month.Format.{parse-format_month}
use fk_cesis_mms.Billing.Month.Skip.{
  IsMonth, IsFirstFree, skip_forward-IsFirstFree, skip_forward_total, skip_forward_none, stops,
}

-- A month that is read is a month of the year.
pub parse-IsMonth :
    (value : Text) (year month : ℕ)
    → parse_first_billing_month value ≡ ok (some (year, month))
    → IsMonth month
unfolding parse_first_billing_month
parse-IsMonth value year month h = ground arith

module _ (plan : MembershipPlan) (value : Text) (year month : ℕ)
    (parsed : parse_first_billing_month value ≡ ok (some (year, month))) where
  normalize-eq :
      (found : ℕ × ℕ)
      → skip_forward 12 (skip_months_list plan) (year, month) ≡ ok found
      → normalize_first_billing_month plan value ≡ ok (format_month found.0 found.1)
  unfolding normalize_first_billing_month
  normalize-eq found e = rw (parsed, e)

  -- The normalized month is the text of the first month at or after the given one that the plan
  -- bills, if the plan bills any month of the year.
  pub normalize-IsFirstFree :
      (free : ℕ)
      → IsMonth free
      → contains (skip_months_list plan) free ≡ false
      → (found : ℕ × ℕ) × (normalize_first_billing_month plan value
          ≡ ok (format_month found.0 found.1))
        × IsFirstFree (skip_months_list plan) (year, month) found
  normalize-IsFirstFree free hf is_free =
      let hm = parse-IsMonth value year month parsed in
      let (found, e) = skip_forward_total (skip_months_list plan) year month free hm hf is_free in
      (
        found,
        normalize-eq found e,
        skip_forward-IsFirstFree 12 (skip_months_list plan) year month found hm e,
      )

  -- Where a month was read and the plan skips every month, normalizing raises that there is no
  -- month to bill.
  pub normalize_none :
      ((m : ℕ) → IsMonth m → contains (skip_months_list plan) m ≡ true)
      → normalize_first_billing_month plan value ≡ err no_billing_months
  unfolding normalize_first_billing_month
  normalize_none all = rw (
    parsed,
    skip_forward_none 12 (skip_months_list plan) year month all
        (parse-IsMonth value year month parsed),
  )

-- A month that is billed is left as it is, so normalizing again changes nothing.
pub normalize-format_month :
    (plan : MembershipPlan) (year month : ℕ)
    → year < 10000
    → IsMonth month
    → contains (skip_months_list plan) month ≡ false
    → normalize_first_billing_month plan (format_month year month) ≡ ok (format_month year month)
normalize-format_month plan year month hy hm free =
    normalize-eq plan (format_month year month) year month (parse-format_month year month hy hm)
      (year, month) (stops 12 (skip_months_list plan) year month free)

-- What normalizing gives is the text of a month that is billed.
pub normalize-form :
    (plan : MembershipPlan) (value month : Text)
    → normalize_first_billing_month plan value ≡ ok month
    → (y m : ℕ) × IsMonth m
      × (contains (skip_months_list plan) m ≡ false)
      × (month ≡ format_month y m)
unfolding normalize_first_billing_month
normalize-form plan value month h = elim (Result-cases (parse_first_billing_month value)) [
  | inr (e, p) ↦ absurd (ground (arith, h, p))
  | inl (none, p) ↦ absurd (ground (arith, h, p))
  | inl (some (year, start), p) ↦
      elim (Result-cases (skip_forward 12 (skip_months_list plan) (year, start))) [
        | inr (e, w) ↦ absurd (ground (arith, h, p, w))
        | inl ((y, m), w) ↦
            let first =
              skip_forward-IsFirstFree 12 (skip_months_list plan) year start (y, m)
                (parse-IsMonth value year start p) w in
            let same : format_month y m ≡ month = cc (rw (p, w) at h) in
            (y, m, first.month, first.free, sym same)
      ]
]
