-- ===== src/Billing/Tests.antt =====
-- Runs of apps/billing on concrete rows: a plan that bills every month but January and July, and a
-- family of two.
pub mod Months
pub mod Families
pub mod Drafts
pub mod Records
pub mod Reassigns
pub mod Discontinues
use fk_cesis_mms.Base.{ℕ, true, false, none, some, List, [], ◌∷◌, Option}
use fk_cesis_mms.Base.Int.{ℤ, pos}
use fk_cesis_mms.Base.Text.{Text, codes}
use fk_cesis_mms.Models.{
  Member, active, Agreement, signed, electronic, BillingRecord, draft, installments, Db,
}
use fk_cesis_mms.Billing.Calendar.{Date}
use fk_cesis_mms.Billing.Plan.{MembershipPlan}

abbrev pub plan : MembershipPlan
plan = record {
  pk = 1;
  season = codes "2026/2027";
  annual_amount = pos 60_000;
  installment_count = 9;
  first_installment_month = 9;
  payment_due_day = 15;
  skip_months = codes "1, 7";
  is_active = true;
  is_default = true;
  billing_start_cutoff_day = 20;
}

-- The plan of the season before.
abbrev pub old_plan : MembershipPlan
old_plan = record plan { pk = 2; season = codes "2025/2026"; is_active = false }

abbrev pub july : Text
july = codes "2026-07"

abbrev pub october : Text
october = codes "2026-10"

abbrev pub today : Date
today = record { year = 2026; month = 9; day = 21 }

abbrev pub member_of : ℕ → Member
member_of k = record {
  pk = k;
  guardian_id = 7;
  guardian_email = codes "a@b.lv";
  status = active;
  discontinued_effective_date = none;
  discontinuation_reason = [];
  discontinued_at = none;
  source_application = none;
}

abbrev pub agreement_of : ℕ → ℕ → Text → Agreement
agreement_of k member_id month = record {
  pk = k;
  member_id = member_id;
  is_current = true;
  state = signed;
  signing_path = electronic;
  agreement_number = some (codes "2026-001");
  generated_at = 1;
  sent_at = some 2;
  signed_at = some k;
  voided_at = none;
  void_reason = [];
  external_id = [];
  billing_plan_id = some 1;
  first_billing_month = month;
}

abbrev pub first_agreement : Agreement
first_agreement = agreement_of 11 1 october

abbrev pub second_agreement : Agreement
second_agreement = agreement_of 12 2 october

-- A draft of the season before, with a saved count.
abbrev pub draft_of : ℕ → ℕ → BillingRecord
draft_of k member_id = record {
  pk = k;
  member_id = member_id;
  plan_id = 2;
  agreement_id = some 11;
  season = codes "2025/2026";
  base_amount = pos 60_000;
  is_full_price = true;
  sibling_discount_percent_applied = 5000;
  discount_amount = pos 30_000;
  final_amount = pos 30_000;
  payment_mode = installments;
  full_price_opt_out = false;
  first_billing_month = codes "2025-10";
  scheduled_installment_count = some 3;
  manual_amount_override = none;
  status = draft;
  payment_status = none;
  payment_synced_at = none;
  invoices = [];
}

abbrev pub first_draft : BillingRecord
first_draft = draft_of 21 1

abbrev pub db_with : List BillingRecord → Db
db_with records = record {
  plans = plan ∷ old_plan ∷ [];
  members = member_of 1 ∷ member_of 2 ∷ [];
  agreements = first_agreement ∷ second_agreement ∷ [];
  records = records;
  next_pk = 100;
  audit = [];
  events = [];
  outbox = [];
  refuses = λ taken item. false;
}
