-- ===== src/Billing/Records/Rows.antt =====
-- The rows of a record's invoices, and their amounts and numbers.
use fk_cesis_mms.Base.{ℕ, zero, suc, ◌≡◌, ◌≤◌, refl, true, false, List, [], ◌∷◌, arith, map, length}
use fk_cesis_mms.Base.Int.{ℤ, sum_ℤ, int_laws}
use fk_cesis_mms.Errors.{ok, >>=-eq-ok}
use fk_cesis_mms.Models.{BillingInvoice, BillingRecord, PaymentMode, upfront, installments}
use fk_cesis_mms.Billing.Plan.{MembershipPlan}
use fk_cesis_mms.Billing.Schedule.{Row, derive_installment_schedule}
use fk_cesis_mms.Billing.Schedule.Total.{derive-sum, installments-pos}
use fk_cesis_mms.Billing.Records.{
  insert_invoice, is_nonempty, by_sequence, new_invoices, rows_for, installment_rows,
}

-- The sequence numbers from `n`.
abbrev pub numbered : ℕ → ℕ → List ℕ
numbered n zero = []
numbered n (suc k) = n ∷ numbered (suc n) k

pub amounts-new :
    (key n : ℕ) (rows : List Row)
    → map (λ i. i.amount) (new_invoices key n rows) ≡ map (λ r. r.1) rows
amounts-new key n [] = refl
amounts-new key n (row ∷ rows) = rw (amounts-new (suc key) (suc n) rows)

pub length-new : (key n : ℕ) (rows : List Row) → length (new_invoices key n rows) ≡ length rows
length-new key n [] = refl
length-new key n (row ∷ rows) = rw (length-new (suc key) (suc n) rows)

pub by_sequence-new :
    (key n : ℕ) (rows : List Row) → by_sequence (new_invoices key n rows) ≡ new_invoices key n rows
by_sequence-new key n [] = refl
by_sequence-new key n (row ∷ []) = refl
by_sequence-new key n (row ∷ next ∷ rows) =
    rw (by_sequence-new (suc key) (suc n) (next ∷ rows)) (ground arith)

pub sequences-new :
    (key n : ℕ) (rows : List Row)
    → map (λ i. i.sequence) (new_invoices key n rows) ≡ numbered n (length rows)
sequences-new key n [] = refl
sequences-new key n (row ∷ rows) = rw (sequences-new (suc key) (suc n) rows)

rows_for-sum :
    (mode : PaymentMode) (total : ℤ) (schedule rows : List Row)
    → sum_ℤ (map (λ x. x.1) schedule) ≡ total
    → 1 ≤ length schedule
    → rows_for mode total schedule ≡ ok rows
    → (sum_ℤ (map (λ x. x.1) rows) ≡ total) × (1 ≤ length rows)
rows_for-sum installments total schedule rows h k e =
    let same : schedule ≡ rows = cc in rw (← same) (h, k)
rows_for-sum upfront total [] rows h k e = absurd (cc)
rows_for-sum upfront total ((due, a) ∷ rest) rows h k e =
    let same : (due, total) ∷ [] ≡ rows = cc in rw (← same) (omega int_laws, omega arith)

pub installment_rows-sum :
    (r : BillingRecord) (p : MembershipPlan) (rows : List Row)
    → installment_rows r p ≡ ok rows
    → (sum_ℤ (map (λ x. x.1) rows) ≡ r.final_amount) × (1 ≤ length rows)
unfolding installment_rows
installment_rows-sum r p rows e =
    let (schedule, derived, chosen) =
      >>=-eq-ok
        (derive_installment_schedule p r.final_amount r.first_billing_month
          r.scheduled_installment_count)
        (rows_for r.payment_mode r.final_amount) e in
    let (sum, many) =
      derive-sum p r.final_amount r.first_billing_month r.scheduled_installment_count schedule
        derived in
    rows_for-sum r.payment_mode r.final_amount schedule rows sum
      (omega (arith, many, installments-pos p r.scheduled_installment_count)) chosen

nonempty-insert :
    (i : BillingInvoice) (rest : List BillingInvoice) → is_nonempty (insert_invoice i rest) ≡ true
nonempty-insert i [] = refl
nonempty-insert i (j ∷ rest) = ground arith

pub by_sequence-empty :
    (invoices : List BillingInvoice) → is_nonempty (by_sequence invoices) ≡ false → invoices ≡ []
by_sequence-empty [] h = refl
by_sequence-empty (i ∷ rest) h = absurd (cc (nonempty-insert i (by_sequence rest)))

pub nonempty-new :
    (key n : ℕ) (rows : List Row) → 1 ≤ length rows → is_nonempty (new_invoices key n rows) ≡ true
nonempty-new key n [] h = absurd (omega (arith, h))
nonempty-new key n (row ∷ rows) h = refl
