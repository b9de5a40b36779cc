-- ===== src/Billing/Tests/Drafts.antt =====
-- Drafts, renewals and recreations for the first member.
use fk_cesis_mms.Base.{◌≡◌, refl, true, false, none, some, [], ◌∷◌, Option}
use fk_cesis_mms.Base.Int.{pos, ◌*ℕ◌, ◌-ℤ◌}
use fk_cesis_mms.Base.Text.{int, read_signed, read_digits}
use fk_cesis_mms.Errors.{ok}
use fk_cesis_mms.Models.{Db, Member, Agreement, BillingRecord, installments}
use fk_cesis_mms.Models.Action.{atomic}
use fk_cesis_mms.Billing.Plan.{skip_months_list, months_of, month_of}
use fk_cesis_mms.Billing.Calendar.{days_in}
use fk_cesis_mms.Billing.Money.{
  split_amounts, installment, money_ratio, partial_base_amount, amounts_of, discount_of,
}
use fk_cesis_mms.Billing.Month.{parse_first_billing_month, skip_forward}
use fk_cesis_mms.Billing.Schedule.{
  due_date, place, derive_installment_schedule, count_calendar_year_billable_installments,
}
use fk_cesis_mms.Billing.Family.{
  insert_by, ordered, rank_from, compute_family_tier, first_billable_due_date,
  tiered_billing_amounts,
}
use fk_cesis_mms.Billing.Store.{new_record}
use fk_cesis_mms.Billing.Store.Unique.{IsUnique}
use fk_cesis_mms.Billing.Draft.{
  plan_for, draft_amounts, create_for_season, create_draft_billing, renew_in_season,
  renew_member_billing, recreate_missing_billing_record,
}
use fk_cesis_mms.Billing.Draft.Laws.{create_draft-IsUnique, create_draft_again}
use fk_cesis_mms.Billing.Draft.Recreation.{Recreates, recreate-Recreates}
use fk_cesis_mms.Billing.Tests.{plan, october, member_of, first_agreement, first_draft, db_with}

abbrev db : Db
db = db_with (first_draft ∷ [])

abbrev first : Member
first = member_of 1

abbrev signed_one : Option Agreement
signed_one = some first_agreement

abbrev drafted : BillingRecord
drafted =
    new_record 100 first plan (some 11)
      (record {
        base_amount = pos 20_000;
        is_full_price = true;
        discount_percent_applied = 0;
        discount_amount = pos 0;
        final_amount = pos 20_000;
      })
      installments false october (some 3)

abbrev renewal : BillingRecord
renewal =
    new_record 100 first plan (some 11)
      (record {
        base_amount = pos 60_000;
        is_full_price = true;
        discount_percent_applied = 0;
        discount_amount = pos 0;
        final_amount = pos 60_000;
      })
      installments false october none

drafts : (create_draft_billing true first signed_one db).0 ≡ ok (some drafted, true)
unfolding create_draft_billing create_for_season plan_for draft_amounts atomic
    tiered_billing_amounts compute_family_tier ordered insert_by rank_from first_billable_due_date
    partial_base_amount amounts_of discount_of count_calendar_year_billable_installments
    derive_installment_schedule place due_date skip_forward split_amounts installment money_ratio
    ◌-ℤ◌ ◌*ℕ◌ parse_first_billing_month int read_signed read_digits days_in skip_months_list
    months_of month_of
drafts = refl

renews : (renew_member_billing true first plan october db).0 ≡ ok (some renewal)
unfolding renew_member_billing renew_in_season atomic tiered_billing_amounts compute_family_tier
    ordered insert_by rank_from first_billable_due_date amounts_of discount_of
    derive_installment_schedule place due_date skip_forward split_amounts installment money_ratio
    ◌-ℤ◌ ◌*ℕ◌ parse_first_billing_month int read_signed read_digits days_in skip_months_list
    months_of month_of
renews = refl

create_draft-IsUnique_example : IsUnique (create_draft_billing true first signed_one db).1.records
create_draft-IsUnique_example = create_draft-IsUnique true first signed_one db (tt, tt)

create_draft_again_example :
    let db' = (create_draft_billing true first signed_one db).1 in
    create_draft_billing true first signed_one db' ≡ (ok (some drafted, false), db')
create_draft_again_example = create_draft_again true first signed_one db drafted true drafts

recreate-Recreates_example :
    Recreates true first db signed_one true
      (recreate_missing_billing_record true first signed_one true db)
recreate-Recreates_example = recreate-Recreates true first db signed_one true
