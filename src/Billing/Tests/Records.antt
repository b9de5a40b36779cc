-- ===== src/Billing/Tests/Records.antt =====
-- Amounts, payment status and invoices of a draft.
use fk_cesis_mms.Base.{◌≡◌, refl, none, some, [], ◌∷◌, List}
use fk_cesis_mms.Base.Int.{pos, ◌*ℕ◌, ◌-ℤ◌}
use fk_cesis_mms.Base.Text.{int, read_signed, read_digits, codes}
use fk_cesis_mms.Errors.{ok}
use fk_cesis_mms.Models.{Db, BillingRecord, BillingInvoice, paid}
use fk_cesis_mms.Billing.Plan.{skip_months_list, months_of, month_of}
use fk_cesis_mms.Billing.Calendar.{days_in}
use fk_cesis_mms.Billing.Money.{
  split_amounts, installment, money_ratio, partial_base_amount, discount_of,
}
use fk_cesis_mms.Billing.Month.{parse_first_billing_month, skip_forward}
use fk_cesis_mms.Billing.Schedule.{Row, due_date, place, derive_installment_schedule}
use fk_cesis_mms.Billing.Records.{
  new_invoices, recompute_billing_record, installment_rows, create_invoices,
  materialize_installments,
}
use fk_cesis_mms.Billing.Records.Invoices.{IsMaterialized, materialize_lem, materialize_again}
use fk_cesis_mms.Billing.Tests.{first_draft, db_with}

abbrev db : Db
db = db_with (first_draft ∷ [])

-- A third of the season's price, at half of it.
abbrev recomputed : BillingRecord
recomputed = record first_draft {
  base_amount = pos 20_000;
  discount_amount = pos 10_000;
  final_amount = pos 10_000;
}

recomputes : (recompute_billing_record first_draft db).0 ≡ ok recomputed
unfolding recompute_billing_record partial_base_amount money_ratio discount_of ◌-ℤ◌ ◌*ℕ◌
recomputes = refl

abbrev rows : List Row
rows =
    (record { year = 2025; month = 10; day = 15 }, pos 10_000)
    ∷ (record { year = 2025; month = 11; day = 15 }, pos 10_000)
    ∷ (record { year = 2025; month = 12; day = 15 }, pos 10_000)
    ∷ []

abbrev invoices : List BillingInvoice
invoices = new_invoices 100 1 rows

materializes : (materialize_installments first_draft db).0 ≡ ok invoices
unfolding materialize_installments create_invoices installment_rows derive_installment_schedule
    place due_date skip_forward split_amounts installment money_ratio ◌-ℤ◌ ◌*ℕ◌
    parse_first_billing_month int read_signed read_digits days_in skip_months_list months_of
    month_of
materializes = refl

materialize_lem_example :
    IsMaterialized first_draft first_draft db refl invoices
      (materialize_installments first_draft db).1
materialize_lem_example =
    materialize_lem first_draft first_draft db refl invoices refl (λ e. absurd (cc)) materializes

materialize_again_example :
    let db' = (materialize_installments first_draft db).1 in
    materialize_installments first_draft db' ≡ (ok invoices, db')
materialize_again_example = materialize_again first_draft first_draft db refl invoices materializes

abbrev paid_invoice : BillingInvoice
paid_invoice = record {
  pk = 31;
  sequence = 1;
  due_date = record { year = 2025; month = 10; day = 15 };
  amount = pos 10_000;
  external_invoice_id = codes "abc";
  external_status = [];
  payment_status = some paid;
  sent_at = some 5;
  cancelled_at = none;
  cancellation_reason = [];
  external_cancellation_action = [];
  external_cancellation_status = [];
  external_cancellation_error_code = [];
}

abbrev part_paid : BillingRecord
part_paid = record first_draft {
  invoices =
      paid_invoice ∷ record paid_invoice { pk = 32; sequence = 2; payment_status = none } ∷ [];
}
