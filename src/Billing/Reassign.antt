-- ===== src/Billing/Reassign.antt =====
-- `reassign_draft_billing_record` of apps/billing/services.py.
pub mod Outcome
pub mod NewMonth
pub mod Laws
pub mod Unique
use fk_cesis_mms.Base.{
  ℕ, Bool, false, not, any, ◌&&◌, Option, none, some, List, [], ◌∷◌, ◌==◌, if◌then◌else◌,
}
use fk_cesis_mms.Base.Int.{ℤ, pos, negsuc}
use fk_cesis_mms.Base.Text.{Text, is_blank, text_lt, before_first, int}
use fk_cesis_mms.Errors.{
  Result, ok, ◌>>=◌, ◌>>◌, raise_if, or_raise, not_an_int, not_draft, pushed_or_sent,
  next_year_plan_required, month_before_default, integrity_error,
}
use fk_cesis_mms.Models.{Agreement, BillingRecord, billing_record_reassigned, Db}
use fk_cesis_mms.Models.Action
use fk_cesis_mms.Models.Action.{Action, atomic}
use fk_cesis_mms.Billing.Calendar.{Date}
use fk_cesis_mms.Billing.Plan.{MembershipPlan}
use fk_cesis_mms.Billing.Month.{
  parse_first_billing_month, normalize_first_billing_month, plan_season_start_year,
  derive_first_billing_month,
}
use fk_cesis_mms.Billing.Schedule.{count_calendar_year_billable_installments}
use fk_cesis_mms.Billing.Store.{
  is_for, save_record, invoices_of, is_draft, pushed_or_sent_any, add_audit,
}
use fk_cesis_mms.Billing.Records.{base_for, with_base}

abbrev pub is_year : ℤ → ℕ → Bool
is_year (pos y) year = y == year
is_year (negsuc _) year = false

-- The checks on a new month that is not blank: the normalized month, and the installments of its
-- calendar year.
unfoldable pub check_new_month : MembershipPlan → Text → Date → Result (Text × ℕ)
check_new_month plan month today = do
  parsed ← parse_first_billing_month month
  normalized ← normalize_first_billing_month plan month
  season_year ← plan_season_start_year plan
  year ← or_raise (int (before_first b'-' normalized)) not_an_int
  raise_if (not (is_year year season_year)) next_year_plan_required
  raise_if (text_lt normalized (derive_first_billing_month plan today)) month_before_default
  count ← count_calendar_year_billable_installments plan normalized
  ok (normalized, count)

abbrev pub checked_month : MembershipPlan → Text → Date → Result (Text × Option ℕ)
checked_month plan month today =
    if is_blank month
    then ok ([], none)
    else (do (normalized, count) ← check_new_month plan month today; ok (normalized, some count))

-- The record on the new plan. (`normalized_month or first_billing_month` is the normalized month:
-- where that is blank, so is the other.)
abbrev pub reassigned : MembershipPlan → Text → Option ℕ → BillingRecord → BillingRecord
reassigned plan month count r = with_base (base_for plan count) (record r {
  plan_id = plan.pk;
  season = plan.season;
  first_billing_month = month;
  scheduled_installment_count = count;
  invoices = [];
})

-- The saved fields, and the invoices that were deleted.
abbrev pub copy_reassigned : BillingRecord → BillingRecord → BillingRecord
copy_reassigned r row = record row {
  plan_id = r.plan_id;
  season = r.season;
  first_billing_month = r.first_billing_month;
  scheduled_installment_count = r.scheduled_installment_count;
  base_amount = r.base_amount;
  discount_amount = r.discount_amount;
  final_amount = r.final_amount;
  invoices = [];
}

abbrev pub update_agreement : ℕ → (Agreement → Agreement) → List Agreement → List Agreement
update_agreement k f [] = []
update_agreement k f (a ∷ rows) = (if a.pk == k then f a else a) ∷ update_agreement k f rows

abbrev pub sync_agreement : Option ℕ → ℕ → Text → Db → Db
sync_agreement none plan_id month db = db
sync_agreement (some k) plan_id month db = record db {
  agreements =
      update_agreement k
        (λ a. record a { billing_plan_id = some plan_id; first_billing_month = month })
        db.agreements;
}

-- Another record of the member in the season, which the database's constraint
-- `one_billing_record_per_member_per_season` refuses.
abbrev pub conflicts : ℕ → ℕ → Text → List BillingRecord → Bool
conflicts k member_id season rows =
    any (λ row. not (row.pk == k) && is_for member_id season row) rows

-- The block in `transaction.atomic()`.
unfoldable pub write_reassigned : BillingRecord → Action (Unit {0})
write_reassigned r = Action.◌>>◌ (Action.modify (save_record r.pk (copy_reassigned r))) (
    Action.◌>>◌
      (λ db. Action.raise_if (conflicts r.pk r.member_id r.season db.records) integrity_error db)
      (Action.modify (sync_agreement r.agreement_id r.plan_id r.first_billing_month)))

-- The guards that come before any write: the checked month and count.
unfoldable pub reassign_guards :
    BillingRecord → MembershipPlan → Text → Date → Action (Text × Option ℕ)
reassign_guards r plan month today =
    Action.◌>>◌ (Action.raise_if (not (is_draft r.status)) not_draft) (
      Action.◌>>◌
        (λ db. Action.raise_if (pushed_or_sent_any (invoices_of r.pk db)) pushed_or_sent db)
        (Action.lift (checked_month plan month today)))

-- `reassign_draft_billing_record`, on the day `today`; the result is the object afterwards.
unfoldable pub reassign_draft_billing_record :
    BillingRecord → MembershipPlan → Text → Date → Action BillingRecord
reassign_draft_billing_record r plan month today =
    Action.◌>>=◌ (reassign_guards r plan month today) λ (normalized, count).
      let r' = reassigned plan normalized count r in
      Action.◌>>◌ (atomic (write_reassigned r')) (
        Action.◌>>◌
          (Action.modify (
            add_audit (
              billing_record_reassigned r.pk r.plan_id plan.pk r.first_billing_month normalized
                count)))
          (Action.pure r'))
