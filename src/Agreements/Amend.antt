-- ===== src/Agreements/Amend.antt =====
-- Changes to a signed agreement in apps/agreements/services.py: `record_minor_amendment`,
-- `start_material_amendment` and `discontinue_agreement`.
use fk_cesis_mms.Base.{
  ℕ, Bool, true, false, not, Option, none, some, List, [], ◌∷◌, ◌++◌, if◌then◌else◌, length,
}
use fk_cesis_mms.Base.Text.{Text, codes, text_eq}
use fk_cesis_mms.Errors.{minor_needs_signed, material_needs_signed, discontinue_needs_signed}
use fk_cesis_mms.Models.{
  Agreement, AgreementState, signed, superseded, discontinued, SigningPath, Member, Actor,
  LifecycleEvent, EventType, minor_amendment, material_amendment_started, superseded_by_new,
  participation_ended, Outgoing, discontinued_mail, archive_invoice, cancel_invoice,
  agreement_minor_amended, agreement_material_amendment_started, agreement_superseded,
  member_discontinued, Db,
}
use fk_cesis_mms.Models as Models
use fk_cesis_mms.Models.Action.{Action, ◌>>=◌, ◌>>◌, pure, atomic, raise_if, modify}
use fk_cesis_mms.Billing.Calendar.{Date}
use fk_cesis_mms.Billing.Store.{add_audit}
use fk_cesis_mms.Billing.Discontinue.{create_discontinuation_adjustments}
use fk_cesis_mms.Agreements.Clock.{Clock}
use fk_cesis_mms.Agreements.Number.{save_agreement, assign_agreement_number}
use fk_cesis_mms.Agreements.Create.{insert_agreement}
use fk_cesis_mms.Agreements.Signing.{member_of, save_member, deliver, send_mail}
use fk_cesis_mms.Agreements.Signed.{label_for}

abbrev pub is_signed : AgreementState → Bool
is_signed signed = true
is_signed _ = false

-- `_actor_label`
abbrev pub actor_label_of : Option Actor → Text
actor_label_of none = codes "system"
actor_label_of (some actor) = label_for actor

abbrev pub add_event : LifecycleEvent → Db → Db
add_event event db = record db { events = db.events ++ event ∷ [] }

-- `AgreementLifecycleEvent.objects.create(...)` with a note only.
abbrev pub note_event : ℕ → EventType → Text → Option Actor → LifecycleEvent
note_event agreement_id event_type note actor = record {
  agreement_id = agreement_id;
  event_type = event_type;
  note = note;
  effective_date = none;
  actor_label = actor_label_of actor;
  invoice_actions = [];
}

unfoldable pub record_minor_amendment : Agreement → Option Actor → Text → Action Agreement
record_minor_amendment a actor note = do
  raise_if (not (is_signed a.state)) minor_needs_signed
  modify (add_event (note_event a.pk minor_amendment note actor))
  modify (add_audit (agreement_minor_amended a.pk note))
  pure a

abbrev pub as_superseded : Agreement → Agreement
as_superseded a = record a { state = superseded; is_current = false }

abbrev pub path_or : Option SigningPath → SigningPath → SigningPath
path_or none old = old
path_or (some path) old = path

module _ (clock : Clock) (setting : Option Text) where
  -- The block in `transaction.atomic()`, which gives the new agreement.
  unfoldable pub supersede : Agreement → Option Actor → Text → SigningPath → ℕ → Action Agreement
  supersede a actor note path now = do
    modify (save_agreement a.pk as_superseded)
    modify (add_event (note_event a.pk material_amendment_started note actor))
    modify (add_event (note_event a.pk superseded_by_new note actor))
    new ← insert_agreement a.member_id path now a.billing_plan_id a.first_billing_month
    assign_agreement_number clock setting new

  unfoldable pub start_material_amendment :
      Agreement → Option Actor → Text → Option SigningPath → ℕ → Action Agreement
  start_material_amendment a actor note path now = do
    raise_if (not (is_signed a.state)) material_needs_signed
    new ← atomic (supersede a actor note (path_or path a.signing_path) now)
    modify (add_audit (agreement_material_amendment_started a.pk note new.pk))
    modify (add_audit (agreement_superseded a.pk note new.pk))
    pure new

-- The invoices that the mail of a discontinuation counts.
abbrev pub credit_summary : List (ℕ × Text) → Option ℕ
credit_summary [] = none
credit_summary (action ∷ actions) = some (length (action ∷ actions))

-- One job that waits for the commit.
abbrev pub enqueue_action : ℕ → Text → Action (Unit {0})
enqueue_action invoice_id action =
    if text_eq action (codes "archive")
    then deliver (archive_invoice invoice_id)
    else if text_eq action (codes "cancel")
    then deliver (cancel_invoice invoice_id)
    else pure tt

-- The jobs, once the block is committed: the first that raises is the last that runs.
unfoldable pub enqueue_actions : List (ℕ × Text) → Action (Unit {0})
enqueue_actions [] = pure tt
enqueue_actions ((invoice_id, action) ∷ actions) =
    enqueue_action invoice_id action >> enqueue_actions actions

abbrev pub as_discontinued : Agreement → Agreement
as_discontinued a = record a { state = discontinued }

abbrev pub leaving : Date → Text → ℕ → Member → Member
leaving effective_date reason now m = record m {
  status = Models.MemberStatus.discontinued;
  discontinued_effective_date = some effective_date;
  discontinuation_reason = reason;
  discontinued_at = some now;
}

abbrev pub end_event : ℕ → Date → Text → Option Actor → List (ℕ × Text) → LifecycleEvent
end_event agreement_id effective_date reason actor actions = record {
  agreement_id = agreement_id;
  event_type = participation_ended;
  note = reason;
  effective_date = some effective_date;
  actor_label = actor_label_of actor;
  invoice_actions = actions;
}

-- The block in `transaction.atomic()`, with the jobs of its commit. (There are no adjustments.)
unfoldable pub end_participation :
    Agreement → Member → Option Actor → Date → Text → List ℕ → ℕ → Action (List (ℕ × Text))
end_participation a member actor effective_date reason ids now = do
  actions ← create_discontinuation_adjustments member.pk ids reason now
  modify (save_agreement a.pk as_discontinued)
  modify (save_member member.pk (leaving effective_date reason now))
  modify (add_event (end_event a.pk effective_date reason actor actions))
  pure actions

unfoldable pub discontinue_agreement :
    Agreement → Option Actor → Date → Text → List ℕ → ℕ → Action Agreement
discontinue_agreement a actor effective_date reason ids now = do
  raise_if (not (is_signed a.state)) discontinue_needs_signed
  member ← member_of a
  actions ← atomic (end_participation a member actor effective_date reason ids now)
  enqueue_actions actions
  send_mail member.guardian_email
      (discontinued_mail member.guardian_email effective_date reason (credit_summary actions))
  modify (add_audit (member_discontinued member.pk effective_date reason 0 (length actions)))
  pure (as_discontinued a)
