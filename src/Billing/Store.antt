-- ===== src/Billing/Store.antt =====
-- The queries and updates of billing rows that the services of apps/billing share.
pub mod Unique
pub mod Update
use fk_cesis_mms.Base.{
  ℕ, suc, Bool, true, false, not, ◌&&◌, ◌||◌, Option, none, some, List, [], ◌∷◌, ◌++◌, ltb, ◌==◌,
  if◌then◌else◌, any, is_some,
}
use fk_cesis_mms.Base.Text.{Text, text_eq, is_blank}
use fk_cesis_mms.Models.{
  Member, Agreement, BillingRecord, BillingInvoice, RecordStatus, draft, confirmed, PaymentMode,
  installments, AuditEvent, Db,
}
use fk_cesis_mms.Billing.Plan.{MembershipPlan}
use fk_cesis_mms.Billing.Money.{BillingAmounts}

-- `BillingRecord.objects.filter(member=..., season=...)`
abbrev pub is_for : ℕ → Text → BillingRecord → Bool
is_for member_id season r = r.member_id == member_id && text_eq r.season season

abbrev pub find_for : ℕ → Text → List BillingRecord → Option BillingRecord
find_for member_id season [] = none
find_for member_id season (r ∷ rows) =
    let rest = find_for member_id season rows in if is_for member_id season r then some r else rest

abbrev pub find_record : ℕ → List BillingRecord → Option BillingRecord
find_record k [] = none
find_record k (r ∷ rows) = let rest = find_record k rows in if r.pk == k then some r else rest

-- `record.save(update_fields=...)`: the fields that `f` sets, on the row of that key.
abbrev pub update_record :
    ℕ → (BillingRecord → BillingRecord) → List BillingRecord → List BillingRecord
update_record k f [] = []
update_record k f (r ∷ rows) = (if r.pk == k then f r else r) ∷ update_record k f rows

abbrev pub save_record : ℕ → (BillingRecord → BillingRecord) → Db → Db
save_record k f db = record db { records = update_record k f db.records }

-- `record.invoices.all()`, from the database.
abbrev pub invoices_of : ℕ → Db → List BillingInvoice
invoices_of k db = elim (find_record k db.records) [ none ↦ [] | some r ↦ r.invoices ]

-- `MembershipPlan.objects.filter(is_active=True).order_by("-pk").first()`
abbrev pub latest_active : List MembershipPlan → Option MembershipPlan
latest_active [] = none
latest_active (p ∷ plans) = elim (latest_active plans) [
  | none ↦ if p.is_active then some p else none
  | some q ↦ if p.is_active && ltb q.pk p.pk then some p else some q
]

-- `get_current_agreement(member)` of apps/agreements/services.py
abbrev pub current_agreement : ℕ → List Agreement → Option Agreement
current_agreement member_id [] = none
current_agreement member_id (a ∷ rows) =
    let rest = current_agreement member_id rows in
    if a.is_current && a.member_id == member_id then some a else rest

-- `BillingRecord.objects.create(...)`: a draft with the given amounts, and no invoice.
abbrev pub new_record :
    ℕ
    → Member
    → MembershipPlan
    → Option ℕ
    → BillingAmounts
    → PaymentMode
    → Bool
    → Text
    → Option ℕ
    → BillingRecord
new_record key member plan agreement_id amounts mode opt_out month scheduled = record {
  pk = key;
  member_id = member.pk;
  plan_id = plan.pk;
  agreement_id = agreement_id;
  season = plan.season;
  base_amount = amounts.base_amount;
  is_full_price = amounts.is_full_price;
  sibling_discount_percent_applied = amounts.discount_percent_applied;
  discount_amount = amounts.discount_amount;
  final_amount = amounts.final_amount;
  payment_mode = mode;
  full_price_opt_out = opt_out;
  first_billing_month = month;
  scheduled_installment_count = scheduled;
  manual_amount_override = none;
  status = draft;
  payment_status = none;
  payment_synced_at = none;
  invoices = [];
}

abbrev pub add_record : BillingRecord → Db → Db
add_record r db = record db { records = db.records ++ r ∷ []; next_pk = suc db.next_pk }

abbrev pub add_audit : AuditEvent → Db → Db
add_audit event db = record db { audit = db.audit ++ event ∷ [] }

-- The mode that the member's application asks for, and installments where it asks for none.
abbrev pub payment_mode_of : Member → PaymentMode
payment_mode_of member = elim member.source_application [
  | none ↦ installments
  | some application ↦ elim application.preferred_payment_mode [
    | none ↦ installments
    | some mode ↦ mode
  ]
]

abbrev pub is_draft : RecordStatus → Bool
is_draft draft = true
is_draft confirmed = false

-- Some invoice has reached Invoice Ninja or a parent.
abbrev pub pushed_or_sent_any : List BillingInvoice → Bool
pushed_or_sent_any invoices =
    any (λ i. not (is_blank i.external_invoice_id)) invoices
    || any (λ i. is_some i.sent_at) invoices
