-- ===== src/Billing/Tests/Reassigns.antt =====
-- A draft of the season before, moved to the plan of this season.
use fk_cesis_mms.Base.{◌≡◌, refl, some, [], ◌∷◌}
use fk_cesis_mms.Base.Int.{pos, ◌*ℕ◌, ◌-ℤ◌}
use fk_cesis_mms.Base.Text.{int, read_signed, read_digits, digits_from, decimal, padded}
use fk_cesis_mms.Errors.{ok, err, integrity_error}
use fk_cesis_mms.Models.{Db, BillingRecord}
use fk_cesis_mms.Models.Action.{atomic}
use fk_cesis_mms.Billing.Plan.{skip_months_list, months_of, month_of}
use fk_cesis_mms.Billing.Calendar.{days_in}
use fk_cesis_mms.Billing.Money.{
  split_amounts, installment, money_ratio, partial_base_amount, discount_of,
}
use fk_cesis_mms.Billing.Month.{
  parse_first_billing_month, skip_forward, format_month, normalize_first_billing_month,
  plan_season_start_year, derive_first_billing_month,
}
use fk_cesis_mms.Billing.Schedule.{
  due_date, place, derive_installment_schedule, count_calendar_year_billable_installments,
}
use fk_cesis_mms.Billing.Store.Unique.{IsUnique}
use fk_cesis_mms.Billing.Reassign.{
  check_new_month, checked_month, write_reassigned, reassign_guards, reassign_draft_billing_record,
}
use fk_cesis_mms.Billing.Reassign.Laws.{reassign-IsSynced, IsSynced, reassign-taken}
use fk_cesis_mms.Billing.Reassign.Unique.{reassign-IsUnique}
use fk_cesis_mms.Billing.Tests.{
  plan, today, october, first_agreement, first_draft, draft_of, db_with,
}

abbrev db : Db
db = db_with (first_draft ∷ draft_of 22 2 ∷ [])

-- The member has a record in the season of the plan too.
abbrev taken_db : Db
taken_db = db_with (first_draft ∷ record (draft_of 23 1) { season = plan.season } ∷ [])

abbrev moved : BillingRecord
moved = record first_draft {
  plan_id = 1;
  season = plan.season;
  base_amount = pos 20_000;
  discount_amount = pos 10_000;
  final_amount = pos 10_000;
  first_billing_month = october;
}

passes : checked_month plan october today ≡ ok (october, some 3)
unfolding check_new_month normalize_first_billing_month plan_season_start_year
    derive_first_billing_month format_month padded decimal digits_from
    count_calendar_year_billable_installments derive_installment_schedule place due_date
    skip_forward split_amounts installment money_ratio ◌-ℤ◌ ◌*ℕ◌ parse_first_billing_month int
    read_signed read_digits days_in skip_months_list months_of month_of
passes = refl

moves : (reassign_draft_billing_record first_draft plan october today db).0 ≡ ok moved
unfolding reassign_draft_billing_record reassign_guards write_reassigned atomic partial_base_amount
    discount_of check_new_month normalize_first_billing_month plan_season_start_year
    derive_first_billing_month format_month padded decimal digits_from
    count_calendar_year_billable_installments derive_installment_schedule place due_date
    skip_forward split_amounts installment money_ratio ◌-ℤ◌ ◌*ℕ◌ parse_first_billing_month int
    read_signed read_digits days_in skip_months_list months_of month_of
moves = refl

reassign-IsSynced_example :
    IsSynced first_draft plan october today db first_agreement
      (reassign_draft_billing_record first_draft plan october today db).1
reassign-IsSynced_example =
    reassign-IsSynced first_draft plan october today db moved first_draft first_agreement refl refl
      refl moves

reassign-taken_example :
    reassign_draft_billing_record first_draft plan october today taken_db
    ≡ (err integrity_error, taken_db)
reassign-taken_example =
    reassign-taken first_draft plan october today taken_db (october, some 3) refl refl passes refl

reassign-IsUnique_example :
    IsUnique (reassign_draft_billing_record first_draft plan october today db).1.records
reassign-IsUnique_example =
    reassign-IsUnique first_draft plan october today db ((refl, tt), (tt, tt))
      ((λ _. refl), ((λ e. absurd (cc)), tt)) ((refl, tt), (tt, tt))
