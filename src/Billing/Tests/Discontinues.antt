-- ===== src/Billing/Tests/Discontinues.antt =====
-- A member with a paid invoice, a draft invoice in Invoice Ninja, and one that is not there yet.
use fk_cesis_mms.Base.{
  ℕ, ◌≡◌, ◌↔◌, refl, true, none, some, [], ◌∷◌, List, length, All, count_if, contains,
}
use fk_cesis_mms.Base.Int.{pos}
use fk_cesis_mms.Base.Text.{Text, codes}
use fk_cesis_mms.Errors.{ok}
use fk_cesis_mms.Models.{BillingInvoice, Db, paid, unpaid}
use fk_cesis_mms.Billing.Discontinue.{
  is_invoice_due_to_send, cancelled, cancel_all, check_selected, process_selected,
  create_discontinuation_adjustments,
}
use fk_cesis_mms.Billing.Discontinue.Laws.{IsCancellable, owned, discontinue_iff}
use fk_cesis_mms.Billing.Tests.{today, first_draft, db_with}

abbrev local_invoice : BillingInvoice
local_invoice = record {
  pk = 33;
  sequence = 3;
  due_date = record { year = 2026; month = 9; day = 15 };
  amount = pos 10_000;
  external_invoice_id = [];
  external_status = [];
  payment_status = some unpaid;
  sent_at = none;
  cancelled_at = none;
  cancellation_reason = [];
  external_cancellation_action = [];
  external_cancellation_status = [];
  external_cancellation_error_code = [];
}

abbrev draft_invoice : BillingInvoice
draft_invoice = record local_invoice {
  pk = 32;
  sequence = 2;
  external_invoice_id = codes "b";
  external_status = codes "created";
}

abbrev paid_invoice : BillingInvoice
paid_invoice = record draft_invoice { pk = 31; sequence = 1; payment_status = some paid }

abbrev db : Db
db =
    db_with
      (record first_draft { invoices = paid_invoice ∷ draft_invoice ∷ local_invoice ∷ [] } ∷ [])

abbrev chosen : List ℕ
chosen = 33 ∷ 32 ∷ []

abbrev left : Text
left = codes "left"

-- The draft is due, and it is queued for the archive when it is cancelled.
due : is_invoice_due_to_send draft_invoice today ≡ true
unfolding is_invoice_due_to_send
due = refl

queued : (create_discontinuation_adjustments 1 chosen left 9 db).0 ≡ ok ((32, codes "archive") ∷ [])
unfolding create_discontinuation_adjustments process_selected check_selected cancel_all cancelled
queued = refl

discontinue_iff_example :
    ((jobs : List (ℕ × Text)) × ((create_discontinuation_adjustments 1 chosen left 9 db).0
        ≡ ok jobs))
    ↔ ((count_if (λ i. contains chosen i.pk) (owned 1 db.records) ≡ length chosen)
        × All (λ i. contains chosen i.pk ≡ true → IsCancellable i) (owned 1 db.records))
discontinue_iff_example = discontinue_iff 1 33 (32 ∷ []) left 9 db
