-- ===== src/Models.antt =====
-- The rows that the services read and write (apps/members/models.py, apps/registrations/models.py,
-- apps/agreements/models.py, apps/billing/models.py), each with the fields that they use, and the
-- database that holds them. Times are numbers; an empty text is `[]`, a NULL is `none`, and a
-- blank choice is `none` too.
pub mod Action
use fk_cesis_mms.Base.{ℕ, Bool, Option, none, some, List, [], ◌∷◌, ◌==◌, if◌then◌else◌}
use fk_cesis_mms.Base.Int.{ℤ}
use fk_cesis_mms.Base.Text.{Text}
use fk_cesis_mms.Billing.Calendar.{Date}
use fk_cesis_mms.Billing.Plan.{MembershipPlan}

-- `BillingRecord.PaymentMode`
pub data PaymentMode : Type 0 where
  upfront installments : PaymentMode

-- `Agreement.SigningPath`
pub data SigningPath : Type 0 where
  electronic paper : SigningPath

-- The part of a `RegistrationApplication` that follows its member.
pub record Application : Type 0 where
  pub support_club_instead_of_multi_child_discount : Option Bool
  pub preferred_payment_mode : Option PaymentMode
  pub preferred_agreement_signing : Option SigningPath

-- `Member.Status`
pub data MemberStatus : Type 0 where
  active discontinued : MemberStatus

pub record Member : Type 0 where
  pub pk : ℕ
  pub guardian_id : ℕ
  pub guardian_email : Text
  pub status : MemberStatus
  pub discontinued_effective_date : Option Date
  pub discontinuation_reason : Text
  pub discontinued_at : Option ℕ
  pub source_application : Option Application

-- `Agreement.State`
pub data AgreementState : Type 0 where
  generated sent signed void superseded discontinued : AgreementState

pub record Agreement : Type 0 where
  pub pk : ℕ
  pub member_id : ℕ
  pub is_current : Bool
  pub state : AgreementState
  pub signing_path : SigningPath
  pub agreement_number : Option Text
  pub generated_at : ℕ
  pub sent_at : Option ℕ
  pub signed_at : Option ℕ
  pub voided_at : Option ℕ
  pub void_reason : Text
  pub external_id : Text
  pub billing_plan_id : Option ℕ
  pub first_billing_month : Text

-- `PaymentStatus`
pub data PaymentStatus : Type 0 where
  unpaid partial paid : PaymentStatus

pub record BillingInvoice : Type 0 where
  pub pk : ℕ
  pub sequence : ℕ
  pub due_date : Date
  pub amount : ℤ
  pub external_invoice_id : Text
  pub external_status : Text
  pub payment_status : Option PaymentStatus
  pub sent_at : Option ℕ
  pub cancelled_at : Option ℕ
  pub cancellation_reason : Text
  pub external_cancellation_action : Text
  pub external_cancellation_status : Text
  pub external_cancellation_error_code : Text

-- `BillingRecord.Status`
pub data RecordStatus : Type 0 where
  draft confirmed : RecordStatus

-- A billing record stands with its invoices.
pub record BillingRecord : Type 0 where
  pub pk : ℕ
  pub member_id : ℕ
  pub plan_id : ℕ
  pub agreement_id : Option ℕ
  pub season : Text
  pub base_amount : ℤ
  pub is_full_price : Bool
  pub sibling_discount_percent_applied : ℕ
  pub discount_amount : ℤ
  pub final_amount : ℤ
  pub payment_mode : PaymentMode
  pub full_price_opt_out : Bool
  pub first_billing_month : Text
  pub scheduled_installment_count : Option ℕ
  pub manual_amount_override : Option ℤ
  pub status : RecordStatus
  pub payment_status : Option PaymentStatus
  pub payment_synced_at : Option ℕ
  pub invoices : List BillingInvoice

-- The rows of `AuditEvent` that the modelled services write: the action, the target's key and the
-- metadata.
pub data AuditEvent : Type 0 where
  billing_record_renewed : (record_id plan_id : ℕ) (season month : Text) → AuditEvent
  billing_record_recreated : (record_id : ℕ) (plan_id : Option ℕ) (season : Text) → AuditEvent
  billing_record_reassigned :
      (record_id old_plan new_plan : ℕ) (old_month new_month : Text) (count : Option ℕ) → AuditEvent
  agreement_sent : (agreement_id : ℕ) (path : SigningPath) → AuditEvent
  agreement_signed : (agreement_id : ℕ) (actor_label : Text) → AuditEvent
  agreement_voided : (agreement_id : ℕ) → AuditEvent
  billing_plan_assigned :
      (agreement_id : ℕ) (old_plan : Option ℕ) (new_plan : ℕ) (old_month new_month : Text)
      (count : ℕ)
      → AuditEvent
  agreement_minor_amended : (agreement_id : ℕ) (note : Text) → AuditEvent
  agreement_material_amendment_started agreement_superseded :
      (agreement_id : ℕ) (note : Text) (new_agreement_id : ℕ) → AuditEvent
  member_discontinued :
      (member_id : ℕ) (effective_date : Date) (reason : Text) (adjustments actions : ℕ) → AuditEvent

-- The account of a member of the staff, as far as its label goes.
pub record Actor : Type 0 where
  pub email : Text
  pub username : Text

-- `AgreementLifecycleEvent.EventType`, those that the services of agreements write.
pub data EventType : Type 0 where
  minor_amendment material_amendment_started superseded_by_new participation_ended : EventType

pub record LifecycleEvent : Type 0 where
  pub agreement_id : ℕ
  pub event_type : EventType
  pub note : Text
  pub effective_date : Option Date
  pub actor_label : Text
  pub invoice_actions : List (ℕ × Text)

-- The template of a mail about an agreement.
pub data AgreementMail : Type 0 where
  sent_mail signed_mail void_mail : AgreementMail

-- What leaves the program, in its order: mails to a guardian, and jobs for the queue.
pub data Outgoing : Type 0 where
  mail : (template : AgreementMail) (to : Text) → Outgoing
  discontinued_mail :
      (to : Text) (effective_date : Date) (reason : Text) (cancelled : Option ℕ) → Outgoing
  create_submission : (agreement_id : ℕ) (send_email : Bool) → Outgoing
  archive_submission : (external_id : Text) → Outgoing
  archive_invoice cancel_invoice : (invoice_id : ℕ) → Outgoing

pub record Db : Type 0 where
  pub plans : List MembershipPlan
  pub members : List Member
  pub agreements : List Agreement
  pub records : List BillingRecord
  pub next_pk : ℕ
  pub audit : List AuditEvent
  pub events : List LifecycleEvent
  pub outbox : List Outgoing
  -- What the mail server and the queue refuse, after what they have taken: they are no code of this
  -- program.
  pub refuses : List Outgoing → Outgoing → Bool

-- `objects.get(pk=...)`, with `none` for `DoesNotExist`.
abbrev pub find_plan : ℕ → List MembershipPlan → Option MembershipPlan
find_plan k [] = none
find_plan k (p ∷ ps) = let rest = find_plan k ps in if p.pk == k then some p else rest

abbrev pub find_member : ℕ → List Member → Option Member
find_member k [] = none
find_member k (m ∷ ms) = let rest = find_member k ms in if m.pk == k then some m else rest

abbrev pub find_agreement : ℕ → List Agreement → Option Agreement
find_agreement k [] = none
find_agreement k (a ∷ rows) = let rest = find_agreement k rows in if a.pk == k then some a else rest
