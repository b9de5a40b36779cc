-- ===== src/Agreements/Tests/Signs.antt =====
-- Signatures, setups and ends on concrete rows.
use fk_cesis_mms.Base.{ℕ, ◌≡◌, refl, true, false, some, none, List, [], ◌∷◌, any}
use fk_cesis_mms.Base.Text.{Text, codes, int, padded}
use fk_cesis_mms.Errors.{ok, err, not_delivered}
use fk_cesis_mms.Models.{Agreement, Db}
use fk_cesis_mms.Billing.Plan.{skip_months_list}
use fk_cesis_mms.Billing.Month.{
  parse_first_billing_month, normalize_first_billing_month, plan_season_start_year,
  derive_first_billing_month,
}
use fk_cesis_mms.Billing.Calendar.{days_in}
use fk_cesis_mms.Billing.Schedule.{count_calendar_year_billable_installments}
use fk_cesis_mms.Billing.Tests.{plan, today, member_of, first_draft}
use fk_cesis_mms.Agreements.Number.{number_for, next_agreement_sequence_for_year, has_number}
use fk_cesis_mms.Agreements.Signed.{
  check_month_of, announce_signed, on_agreement_signed, mark_agreement_signed, as_signed,
  signing_guards,
}
use fk_cesis_mms.Agreements.Setup.{
  check_setup, check_setup_month, write_setup, is_locked, set_billing_setup, with_setup,
}
use fk_cesis_mms.Agreements.Amend.{end_participation, discontinue_agreement}
use fk_cesis_mms.Agreements.Signing as Signing
use fk_cesis_mms.Agreements.Signing.{send_agreement_email}
use fk_cesis_mms.Models.Action.{atomic}
use fk_cesis_mms.Billing.Draft.{
  create_draft_billing_for_member, create_draft_billing, plan_for, create_for_season,
}
use fk_cesis_mms.Billing.Discontinue.{create_discontinuation_adjustments}
use fk_cesis_mms.Agreements.Rows.Numbers.{next_number_free}
use fk_cesis_mms.Agreements.Laws.Signs.{IsBilled, sign-IsBilled}
use fk_cesis_mms.Agreements.Laws.Sets.{set-IsNewMonth, set-signs, set_again, Passes}
use fk_cesis_mms.Agreements.Laws.Leaves.{EndsWell, discontinue_agreement-EndsWell}
use fk_cesis_mms.Agreements.Tests.{clock, now, note, pending, pending_db, in_force, in_force_db}

abbrev prefix : Text
prefix = codes "FKC"

abbrev this_year : ℕ
this_year = 2026

next_number_free_example :
    any
      (λ a.
        has_number
          (number_for prefix this_year
            (next_agreement_sequence_for_year clock this_year pending_db.agreements))
          a.agreement_number)
      pending_db.agreements
    ≡ false
next_number_free_example =
    next_number_free clock prefix this_year pending_db.agreements
      ((λ year sequence is. absurd (cc)), tt)

-- The member has a record of the season.
abbrev billed_db : Db
billed_db = record pending_db { records = record first_draft { season = plan.season } ∷ [] }

signed_run : (mark_agreement_signed false pending none now billed_db).0 ≡ ok (as_signed now pending)
unfolding mark_agreement_signed signing_guards check_month_of plan_season_start_year int
    normalize_first_billing_month skip_months_list padded announce_signed send_agreement_email
    on_agreement_signed Signing.member_of create_draft_billing_for_member create_draft_billing
    plan_for atomic create_for_season
signed_run = refl

sign-IsBilled_example :
    IsBilled false pending none now billed_db refl
      (as_signed now pending)
      (mark_agreement_signed false pending none now billed_db).1
sign-IsBilled_example =
    sign-IsBilled false pending none now billed_db refl (as_signed now pending) signed_run

abbrev november : Text
november = codes "2026-11"

abbrev set : Agreement
set = with_setup 1 november pending

set_run : (set_billing_setup pending plan november today pending_db).0 ≡ ok set
unfolding set_billing_setup check_setup check_setup_month parse_first_billing_month int
    normalize_first_billing_month skip_months_list derive_first_billing_month padded
    plan_season_start_year count_calendar_year_billable_installments days_in write_setup
set_run = refl

set-IsNewMonth_example :
    (is_locked pending.state ≡ false)
    × (plan.is_active ≡ true)
    × (set.billing_plan_id ≡ some plan.pk)
    × (set.state ≡ pending.state)
    × ((count : ℕ) × Passes plan november today set.first_billing_month count)
set-IsNewMonth_example = set-IsNewMonth pending plan november today pending_db set set_run

set_again_example :
    let db' = (set_billing_setup pending plan november today pending_db).1 in
    set_billing_setup set plan november today db' ≡ (ok set, db')
set_again_example = set_again pending plan november today pending_db set set_run

set-signs_example : signing_guards pending_db.plans set ≡ ok tt
set-signs_example = set-signs pending plan november today pending_db set set_run refl refl

abbrev nothing : List ℕ
nothing = []

-- The mail server is down.
abbrev down_db : Db
down_db = record in_force_db { refuses = λ taken item. true }

down_run :
    (discontinue_agreement in_force none today note nothing now down_db).0 ≡ err not_delivered
unfolding discontinue_agreement Signing.member_of atomic end_participation
    create_discontinuation_adjustments fk_cesis_mms.Agreements.Amend.enqueue_actions
    Signing.send_mail Signing.deliver
down_run = refl

discontinue_agreement-EndsWell_example :
    EndsWell in_force none today note nothing now down_db
      (member_of 1)
      refl
      refl
      (discontinue_agreement in_force none today note nothing now down_db)
discontinue_agreement-EndsWell_example =
    discontinue_agreement-EndsWell in_force none today note nothing now down_db (member_of 1) refl
      refl
