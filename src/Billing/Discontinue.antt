-- ===== src/Billing/Discontinue.antt =====
-- The invoices of a member who leaves: `is_invoice_due_to_send` and
-- `create_discontinuation_adjustments` of apps/billing/services.py.
pub mod Laws
pub mod Effect
use fk_cesis_mms.Base.{
  ℕ, Bool, true, false, not, ◌&&◌, ◌||◌, Option, none, some, List, [], ◌∷◌, ◌++◌, ◌==◌,
  if◌then◌else◌, keep, length, contains, is_some, map,
}
use fk_cesis_mms.Base.Text.{Text, codes, is_blank, text_eq}
use fk_cesis_mms.Errors as Errors
use fk_cesis_mms.Errors.{
  Result, ok, err, foreign_invoice, paid_invoice, sent_without_id, bad_external_status,
}
use fk_cesis_mms.Models.{BillingInvoice, BillingRecord, Db}
use fk_cesis_mms.Models.Action.{Action, ◌>>=◌, ◌>>◌, pure, gets, lift, modify}
use fk_cesis_mms.Models.Action as Action
use fk_cesis_mms.Billing.Calendar.{Date, date_le}
use fk_cesis_mms.Billing.Records.{is_paid_or_partial, insert_invoice}

unfoldable pub is_invoice_due_to_send : BillingInvoice → Date → Bool
is_invoice_due_to_send i today =
    if is_some i.cancelled_at
    then false
    else if is_blank i.external_invoice_id
    then false
    else if not (text_eq i.external_status (codes "created"))
    then false
    else date_le (record i.due_date { day = 1 }) today

-- The selected invoices of the member. (The source leaves their order to the database.)
abbrev pub selected_of : ℕ → List ℕ → List BillingRecord → List BillingInvoice
selected_of member_id ids [] = []
selected_of member_id ids (r ∷ rows) =
    let rest = selected_of member_id ids rows in
    if r.member_id == member_id then keep (λ i. contains ids i.pk) r.invoices ++ rest else rest

-- The checks on one selected invoice.
unfoldable pub check_selected : BillingInvoice → Result (Unit {0})
check_selected i =
    if is_paid_or_partial i.payment_status
    then err paid_invoice
    else if is_blank i.external_invoice_id && is_some i.sent_at
    then err sent_without_id
    else if not (is_blank i.external_invoice_id)
        && not (
            text_eq i.external_status (codes "created") || text_eq i.external_status (codes "sent"))
    then err bad_external_status
    else ok tt

abbrev pub check_all : List BillingInvoice → Result (Unit {0})
check_all [] = ok tt
check_all (i ∷ rest) = Errors.◌>>◌ (check_selected i) (check_all rest)

-- What Invoice Ninja is to do with an invoice that it has.
abbrev pub cancellation_of : BillingInvoice → Text
cancellation_of i =
    if text_eq i.external_status (codes "created") then codes "archive" else codes "cancel"

-- Only this program has the invoice.
abbrev pub is_local : BillingInvoice → Bool
is_local i = is_blank i.external_invoice_id && not (is_some i.sent_at)

-- The invoice as the loop saves it.
unfoldable pub cancelled : ℕ → Text → BillingInvoice → BillingInvoice
cancelled now reason i =
    if is_local i
    then record i { cancelled_at = some now; cancellation_reason = reason }
    else record i {
      cancelled_at = some now;
      cancellation_reason = reason;
      external_cancellation_action = cancellation_of i;
      external_cancellation_status = codes "pending";
      external_cancellation_error_code = [];
    }

-- `invoice.save(update_fields=...)`, on the row of its key. (A local invoice is saved with its first
-- two fields only; the other three are the row's own.)
abbrev pub copy_cancellation : BillingInvoice → BillingInvoice → BillingInvoice
copy_cancellation i row = record row {
  cancelled_at = i.cancelled_at;
  cancellation_reason = i.cancellation_reason;
  external_cancellation_action = i.external_cancellation_action;
  external_cancellation_status = i.external_cancellation_status;
  external_cancellation_error_code = i.external_cancellation_error_code;
}

abbrev pub put_invoice : BillingInvoice → List BillingInvoice → List BillingInvoice
put_invoice i [] = []
put_invoice i (j ∷ rest) = (if j.pk == i.pk then copy_cancellation i j else j) ∷ put_invoice i rest

abbrev pub put_in_records : BillingInvoice → List BillingRecord → List BillingRecord
put_in_records i [] = []
put_in_records i (r ∷ rows) =
    record r { invoices = put_invoice i r.invoices } ∷ put_in_records i rows

abbrev pub save_invoice : BillingInvoice → Db → Db
save_invoice i db = record db { records = put_in_records i db.records }

-- The loop: the saved rows, and the jobs that the caller is to enqueue.
unfoldable pub cancel_all : ℕ → Text → List BillingInvoice → Db → Db
cancel_all now reason [] db = db
cancel_all now reason (i ∷ rest) db =
    cancel_all now reason rest (save_invoice (cancelled now reason i) db)

abbrev pub jobs_of : List BillingInvoice → List (ℕ × Text)
jobs_of [] = []
jobs_of (i ∷ rest) = if is_local i then jobs_of rest else (i.pk, cancellation_of i) ∷ jobs_of rest

-- The loop over the selected invoices, after the checks.
unfoldable pub process_selected : List BillingInvoice → Text → ℕ → Action (List (ℕ × Text))
process_selected selected reason now =
    lift (check_all selected)
    >> (modify (cancel_all now reason selected) >> pure (jobs_of selected))

-- `create_discontinuation_adjustments`, at the time `now`; the first list that the source returns
-- is always empty.
unfoldable pub create_discontinuation_adjustments : ℕ → List ℕ → Text → ℕ → Action (List (ℕ × Text))
create_discontinuation_adjustments member_id [] reason now = pure []
create_discontinuation_adjustments member_id (k ∷ ids) reason now = do
  selected ← gets (λ db. selected_of member_id (k ∷ ids) db.records)
  Action.raise_if (not (length selected == length (k ∷ ids))) foreign_invoice
  process_selected selected reason now
