-- ===== src/AdminHub/Pipeline.antt =====
-- apps/admin_hub/pipeline.py: the seven steps of a registration, derived from the rows. The texts
-- that are shown beside a step (`name`, `meta`) are left out.
pub mod Steps
pub mod Load
use fk_cesis_mms.Base.{
  ℕ, Bool, true, false, not, ◌&&◌, ◌||◌, Option, none, some, List, [], ◌∷◌, ◌==◌, if◌then◌else◌,
  keep, length, count_if, is_some,
}
use fk_cesis_mms.Base.Text.{Text, is_blank, text_eq, text_lt}
use fk_cesis_mms.Models.{
  Agreement, AgreementState, generated, sent, signed, BillingRecord, BillingInvoice, Db, Member,
  find_plan,
}
use fk_cesis_mms.Billing.Store.{current_agreement}

-- `RegistrationApplication.Status`
pub data ApplicationStatus : Type 0 where
  draft submitted fix_requested approved rejected : ApplicationStatus

pub data StepState : Type 0 where
  done current available locked : StepState

-- The keys of `STEP_DEFS`.
pub data StepKey : Type 0 where
  verify approve agreement handover signature invoices next_season : StepKey

pub record PipelineStep : Type 0 where
  pub number : ℕ
  pub key : StepKey
  pub state : StepState

pub record PipelineObjects : Type 0 where
  pub status : ApplicationStatus
  pub member : Option Member
  pub current_agreement : Option Agreement
  pub billing_record : Option BillingRecord
  pub invoices : List BillingInvoice
  pub next_season_record : Option BillingRecord
  pub mismatched_record : Option BillingRecord

abbrev is_approved : ApplicationStatus → Bool
is_approved approved = true
is_approved _ = false

abbrev is_reviewed : ApplicationStatus → Bool
is_reviewed approved = true
is_reviewed rejected = true
is_reviewed _ = false

abbrev is_submitted : ApplicationStatus → Bool
is_submitted submitted = true
is_submitted _ = false

abbrev is_open : ApplicationStatus → Bool
is_open submitted = true
is_open fix_requested = true
is_open _ = false

abbrev is_signed : AgreementState → Bool
is_signed signed = true
is_signed _ = false

abbrev is_unsigned : AgreementState → Bool
is_unsigned generated = true
is_unsigned sent = true
is_unsigned _ = false

-- The agreement is signed, with a plan and a month.
abbrev is_signed_with_plan : Agreement → Bool
is_signed_with_plan a =
    is_signed a.state && (is_some a.billing_plan_id && not (is_blank a.first_billing_month))

-- A test on the agreement, if there is one.
abbrev on_agreement : (Agreement → Bool) → Option Agreement → Bool
on_agreement test none = false
on_agreement test (some a) = test a

abbrev is_nonempty : List BillingInvoice → Bool
is_nonempty [] = false
is_nonempty (i ∷ rest) = true

abbrev pushed : List BillingInvoice → List BillingInvoice
pushed = keep (λ i. not (is_blank i.external_invoice_id))

unfoldable pub is_done : PipelineObjects → StepKey → Bool
is_done o verify = is_reviewed o.status
is_done o approve = is_approved o.status
is_done o agreement = is_some o.current_agreement
is_done o handover = on_agreement (λ a. is_some a.sent_at) o.current_agreement
is_done o signature = on_agreement is_signed_with_plan o.current_agreement
is_done o invoices = is_nonempty o.invoices && length (pushed o.invoices) == length o.invoices
is_done o next_season = is_some o.next_season_record

unfoldable pub is_available : PipelineObjects → StepKey → Bool
unfolding is_done
is_available o verify = is_open o.status
is_available o approve = is_submitted o.status
is_available o agreement = is_some o.member
is_available o handover = is_some o.current_agreement
is_available o signature = on_agreement (λ a. is_unsigned a.state) o.current_agreement
is_available o invoices = is_some o.billing_record
is_available o next_season = is_some o.billing_record && is_done o signature

abbrev pub step_defs : List (ℕ × StepKey)
step_defs =
    (1, verify)
    ∷ (2, approve)
    ∷ (3, agreement)
    ∷ (4, handover)
    ∷ (5, signature)
    ∷ (6, invoices)
    ∷ (7, next_season)
    ∷ []

-- The loop over the steps; `claimed` says whether a step is the current one already.
unfoldable pub steps_from : PipelineObjects → Bool → List (ℕ × StepKey) → List PipelineStep
steps_from o claimed [] = []
steps_from o claimed ((n, k) ∷ defs) =
    let rest = steps_from o claimed defs in
    let rest_claimed = steps_from o true defs in
    if is_done o k
    then record { number = n; key = k; state = done } ∷ rest
    else if is_available o k && not claimed
    then record { number = n; key = k; state = current } ∷ rest_claimed
    else if is_available o k
    then record { number = n; key = k; state = available } ∷ rest
    else record { number = n; key = k; state = locked } ∷ rest

unfoldable pub build_pipeline : PipelineObjects → List PipelineStep
build_pipeline o = steps_from o false step_defs

abbrev pub is_done_state : PipelineStep → Bool
is_done_state s = elim s.state [ done ↦ true | _ ↦ false ]

abbrev pub is_current_state : PipelineStep → Bool
is_current_state s = elim s.state [ current ↦ true | _ ↦ false ]

abbrev pub is_available_state : PipelineStep → Bool
is_available_state s = elim s.state [ available ↦ true | _ ↦ false ]

unfoldable pub pipeline_progress : List PipelineStep → ℕ × ℕ
pipeline_progress steps = (count_if is_done_state steps, length step_defs)

unfoldable pub current_step : List PipelineStep → Option PipelineStep
current_step [] = none
current_step (s ∷ steps) =
    let rest = current_step steps in if is_current_state s then some s else rest
