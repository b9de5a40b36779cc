-- ===== src/AdminHub/Tests.antt =====
-- A submitted application.
use Prim.Native.String.{String}
use fk_cesis_mms.Base.Text.{Text, codes}
use fk_cesis_mms.Base.Int.{pos}
use fk_cesis_mms.Models.{Agreement, AgreementState, paper, BillingRecord, draft, installments}
use fk_cesis_mms.AdminHub.Pipeline.Load.{
  classify_all, no_record, last_where, first_where, is_same, is_later, is_elsewhere,
  classify_all-IsClassified,
}
use fk_cesis_mms.Base.{
  ℕ, true, false, some, List, ◌∷◌, ◌≡◌, ◌≤◌, refl, none, [], length, count_if, Option,
}
use fk_cesis_mms.AdminHub.Pipeline.{
  PipelineObjects, PipelineStep, submitted, build_pipeline, steps_from, is_done, is_available,
  is_current_state, is_available_state, current_step, verify, current,
}
use fk_cesis_mms.AdminHub.Pipeline.Steps.{one_current}

abbrev fresh : PipelineObjects
fresh = record {
  status = submitted;
  member = none;
  current_agreement = none;
  billing_record = none;
  invoices = [];
  next_season_record = none;
  mismatched_record = none;
}

-- A draft of a season.
abbrev row : ℕ → String → Option ℕ → BillingRecord
row k season agreement_id = record {
  pk = k;
  member_id = 1;
  plan_id = 1;
  agreement_id = agreement_id;
  season = codes season;
  base_amount = pos 30_000;
  is_full_price = true;
  sibling_discount_percent_applied = 0;
  discount_amount = pos 0;
  final_amount = pos 30_000;
  payment_mode = installments;
  full_price_opt_out = false;
  first_billing_month = [];
  scheduled_installment_count = none;
  manual_amount_override = none;
  status = draft;
  payment_status = none;
  payment_synced_at = none;
  invoices = [];
}

abbrev verification_step : PipelineStep
verification_step = record { number = 1; key = verify; state = current }

first_step : current_step (build_pipeline fresh) ≡ some verification_step
unfolding build_pipeline steps_from is_done is_available current_step
first_step = refl

one_current_example :
    let steps = build_pipeline fresh in
    (length steps ≡ 7)
    × (count_if is_current_state steps ≤ 1)
    × (current_step steps ≡ none → count_if is_available_state steps ≡ 0)
one_current_example = one_current fresh

abbrev seasons : List BillingRecord
seasons = row 1 "2025/2026" (some 11) ∷ row 2 "2026/2027" (some 11) ∷ row 3 "2027/2028" none ∷ []

abbrev season : Text
season = codes "2026/2027"

abbrev current_one : Agreement
current_one = record {
  pk = 11;
  member_id = 1;
  is_current = true;
  state = AgreementState.signed;
  signing_path = paper;
  agreement_number = none;
  generated_at = 1;
  sent_at = none;
  signed_at = some 2;
  voided_at = none;
  void_reason = [];
  external_id = [];
  billing_plan_id = some 1;
  first_billing_month = [];
}

classify_all-IsClassified_example :
    let found = classify_all season (some current_one) no_record seasons in
    (found.billing_record ≡ last_where (is_same season (some current_one)) seasons)
    × (found.next_season_record ≡ first_where (is_later season (some current_one)) seasons)
    × (found.mismatched_record ≡ first_where (is_elsewhere season (some current_one)) seasons)
classify_all-IsClassified_example = classify_all-IsClassified season (some current_one) seasons refl
