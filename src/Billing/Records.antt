-- ===== src/Billing/Records.antt =====
-- The services of apps/billing/services.py on an existing billing record: its amounts, its payment
-- status, its invoices, and its reassignment to another plan.
pub mod Payment
pub mod Amounts
pub mod Rows
pub mod Invoices
use fk_cesis_mms.Base.{
  ℕ, suc, Bool, true, false, ◌&&◌, Option, none, some, List, [], ◌∷◌, ◌++◌, ◌==◌, leb,
  if◌then◌else◌, all, any, length, ◌+◌,
}
use fk_cesis_mms.Base.Int.{ℤ, pos, negsuc, ◌-ℤ◌}
use fk_cesis_mms.Errors as Errors
use fk_cesis_mms.Errors.{
  Result, ok, err, does_not_exist, index_error, not_an_int, not_draft, pushed_or_sent,
  next_year_plan_required, month_before_default,
}
use fk_cesis_mms.Models.{
  BillingRecord, BillingInvoice, PaymentMode, upfront, installments, PaymentStatus, unpaid, partial,
  paid, Db, find_plan,
}
use fk_cesis_mms.Models.Action.{Action, ◌>>=◌, ◌>>◌, pure, gets, lift, or_raise, modify}
use fk_cesis_mms.Billing.Plan.{MembershipPlan}
use fk_cesis_mms.Billing.Money.{discount_of, partial_base_amount}
use fk_cesis_mms.Billing.Schedule.{Row, derive_installment_schedule}
use fk_cesis_mms.Billing.Store.{save_record, invoices_of, is_draft}

-- The base of a saved count, and the plan's amount without one.
abbrev pub base_for : MembershipPlan → Option ℕ → ℤ
base_for plan none = plan.annual_amount
base_for plan (some count) = partial_base_amount plan.annual_amount plan.installment_count count

abbrev pub final_for : Option ℤ → ℤ → ℤ → ℤ
final_for none base discount = base -ℤ discount
final_for (some override) base discount = override

-- The record with its amounts at a base, at the stored percentage and override.
abbrev pub with_base : ℤ → BillingRecord → BillingRecord
with_base base r =
    let discount = discount_of base r.sibling_discount_percent_applied in
    record r {
      base_amount = base;
      discount_amount = discount;
      final_amount = final_for r.manual_amount_override base discount;
    }

abbrev pub copy_amounts : BillingRecord → BillingRecord → BillingRecord
copy_amounts r row = record row {
  base_amount = r.base_amount;
  discount_amount = r.discount_amount;
  final_amount = r.final_amount;
}

-- `recompute_billing_record`; the result is the object as it is afterwards.
unfoldable pub recompute_billing_record : BillingRecord → Action BillingRecord
recompute_billing_record r =
    if is_draft r.status
    then (do
      plan ← gets (λ db. find_plan r.plan_id db.plans)
      p ← or_raise plan does_not_exist
      let r' = with_base (base_for p r.scheduled_installment_count) r
      modify (save_record r.pk (copy_amounts r'))
      pure r')
    else pure r

abbrev pub is_paid : Option PaymentStatus → Bool
is_paid (some paid) = true
is_paid _ = false

abbrev pub is_paid_or_partial : Option PaymentStatus → Bool
is_paid_or_partial (some paid) = true
is_paid_or_partial (some partial) = true
is_paid_or_partial _ = false

abbrev pub is_nonempty : List BillingInvoice → Bool
is_nonempty [] = false
is_nonempty (i ∷ rest) = true

-- The status that the invoices add up to.
unfoldable pub rolled_up : List BillingInvoice → PaymentStatus
rolled_up invoices =
    if is_nonempty invoices && all (λ i. is_paid i.payment_status) invoices
    then paid
    else if any (λ i. is_paid_or_partial i.payment_status) invoices
    then partial
    else unpaid

-- `roll_up_payment_status`, at the time `now`.
unfoldable pub roll_up_payment_status : BillingRecord → ℕ → Action (Unit {0})
roll_up_payment_status r now = do
  invoices ← gets (invoices_of r.pk)
  modify (
      save_record r.pk (λ row. record row {
        payment_status = some (rolled_up invoices);
        payment_synced_at = some now;
      }))

-- `order_by("sequence")`
abbrev pub insert_invoice : BillingInvoice → List BillingInvoice → List BillingInvoice
insert_invoice i [] = i ∷ []
insert_invoice i (j ∷ rest) =
    let later = insert_invoice i rest in
    if leb i.sequence j.sequence then i ∷ j ∷ rest else j ∷ later

abbrev pub by_sequence : List BillingInvoice → List BillingInvoice
by_sequence [] = []
by_sequence (i ∷ rest) = insert_invoice i (by_sequence rest)

-- The rows of `BillingInvoice.objects.create(...)`, numbered from `sequence`.
abbrev pub new_invoices : ℕ → ℕ → List Row → List BillingInvoice
new_invoices key sequence [] = []
new_invoices key sequence ((due, amount) ∷ rows) =
    record {
      pk = key;
      sequence = sequence;
      due_date = due;
      amount = amount;
      external_invoice_id = [];
      external_status = [];
      payment_status = none;
      sent_at = none;
      cancelled_at = none;
      cancellation_reason = [];
      external_cancellation_action = [];
      external_cancellation_status = [];
      external_cancellation_error_code = [];
    }
    ∷ new_invoices (suc key) (suc sequence) rows

-- In the upfront mode the whole amount is due at the first date.
abbrev pub rows_for : PaymentMode → ℤ → List Row → Result (List Row)
rows_for installments total rows = ok rows
rows_for upfront total [] = err index_error
rows_for upfront total ((due, _) ∷ _) = ok ((due, total) ∷ [])

-- The rows of a record with no invoice yet.
unfoldable pub installment_rows : BillingRecord → MembershipPlan → Result (List Row)
installment_rows r plan =
    Errors.◌>>=◌
      (derive_installment_schedule plan r.final_amount r.first_billing_month
        r.scheduled_installment_count)
      (rows_for r.payment_mode r.final_amount)

abbrev pub is_zero : ℤ → Bool
is_zero (pos n) = n == 0
is_zero (negsuc _) = false

abbrev pub store_invoices : ℕ → List BillingInvoice → Db → Db
store_invoices k invoices db = record db {
  records = (save_record k (λ row. record row { invoices = row.invoices ++ invoices }) db).records;
  next_pk = db.next_pk + length invoices;
}

unfoldable pub create_invoices : BillingRecord → Action (List BillingInvoice)
create_invoices r = do
  plan ← gets (λ db. find_plan r.plan_id db.plans)
  p ← or_raise plan does_not_exist
  rows ← lift (installment_rows r p)
  db ← gets (λ db. db)
  let invoices = new_invoices db.next_pk 1 rows
  modify (store_invoices r.pk invoices)
  pure invoices

-- `materialize_installments`
unfoldable pub materialize_installments : BillingRecord → Action (List BillingInvoice)
materialize_installments r = if is_zero r.final_amount then pure [] else (do
  existing ← gets (λ db. by_sequence (invoices_of r.pk db))
  if is_nonempty existing then pure existing else create_invoices r)
