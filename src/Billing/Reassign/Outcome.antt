-- ===== src/Billing/Reassign/Outcome.antt =====
-- How a reassignment ends: it has raised with nothing changed, or has moved the record.
use fk_cesis_mms.Base.{
  ℕ, ◌≡◌, refl, true, false, Option, List, [], ◌∷◌, arith, Bool-cases, inl, inr,
}
use fk_cesis_mms.Base.Text.{Text}
use fk_cesis_mms.Errors.{
  Error, Result, ok, err, Result-cases, integrity_error, not_draft, pushed_or_sent,
}
use fk_cesis_mms.Models.{
  BillingRecord, Db, draft, confirmed, RecordStatus, billing_record_reassigned,
}
use fk_cesis_mms.Models.Action.{atomic}
use fk_cesis_mms.Billing.Calendar.{Date}
use fk_cesis_mms.Billing.Plan.{MembershipPlan}
use fk_cesis_mms.Billing.Store.{
  save_record, invoices_of, pushed_or_sent_any, add_audit, update_record,
}
use fk_cesis_mms.Billing.Reassign.{
  checked_month, reassigned, copy_reassigned, sync_agreement, conflicts, write_reassigned,
  reassign_guards, reassign_draft_billing_record,
}

-- A row of the record's own key is no conflict, so that the update does not count.
conflicts-update :
    (k member_id : ℕ) (season : Text) (f : BillingRecord → BillingRecord)
    (rows : List BillingRecord)
    → ((x : BillingRecord) → (f x).pk ≡ x.pk)
    → conflicts k member_id season (update_record k f rows) ≡ conflicts k member_id season rows
conflicts-update k member_id season f [] same = refl
conflicts-update k member_id season f (x ∷ rows) same =
    ground (arith, conflicts-update k member_id season f rows same, same x)

module _ (r : BillingRecord) (db : Db) where
  write-conflict :
      conflicts r.pk r.member_id r.season db.records ≡ true
      → atomic (write_reassigned r) db ≡ (err integrity_error, db)
  unfolding write_reassigned atomic
  write-conflict h =
      ground (
        arith,
        conflicts-update r.pk r.member_id r.season (copy_reassigned r) db.records (λ x. refl),
      )

  write-moved :
      conflicts r.pk r.member_id r.season db.records ≡ false
      → atomic (write_reassigned r) db ≡ (
        ok tt,
        sync_agreement r.agreement_id r.plan_id r.first_billing_month
            (save_record r.pk (copy_reassigned r) db),
      )
  unfolding write_reassigned atomic
  write-moved h =
      ground (
        arith,
        conflicts-update r.pk r.member_id r.season (copy_reassigned r) db.records (λ x. refl),
      )

module _ (r : BillingRecord) (plan : MembershipPlan) (month : Text) (today : Date) (db : Db) where
  pub reassign-confirmed :
      r.status ≡ confirmed
      → reassign_draft_billing_record r plan month today db ≡ (err not_draft, db)
  unfolding reassign_draft_billing_record reassign_guards
  reassign-confirmed h = ground arith

  pub reassign-pushed :
      r.status ≡ draft
      → pushed_or_sent_any (invoices_of r.pk db) ≡ true
      → reassign_draft_billing_record r plan month today db ≡ (err pushed_or_sent, db)
  unfolding reassign_draft_billing_record reassign_guards
  reassign-pushed h k = ground arith

  pub reassign-bad_month :
      (e : Error)
      → r.status ≡ draft
      → pushed_or_sent_any (invoices_of r.pk db) ≡ false
      → checked_month plan month today ≡ err e
      → reassign_draft_billing_record r plan month today db ≡ (err e, db)
  unfolding reassign_draft_billing_record reassign_guards
  reassign-bad_month e h k m = ground arith

  module _ (new_month : Text) (count : Option ℕ) where
    abbrev pub moved : BillingRecord
    moved = reassigned plan new_month count r

    abbrev pub moved_db : Db
    moved_db =
        add_audit
          (billing_record_reassigned r.pk r.plan_id plan.pk r.first_billing_month new_month count)
          (sync_agreement r.agreement_id plan.pk new_month
            (save_record r.pk (copy_reassigned moved) db))

    pub reassign-write :
        r.status ≡ draft
        → pushed_or_sent_any (invoices_of r.pk db) ≡ false
        → checked_month plan month today ≡ ok (new_month, count)
        → conflicts r.pk r.member_id plan.season db.records ≡ false
        → reassign_draft_billing_record r plan month today db ≡ (ok moved, moved_db)
    unfolding reassign_draft_billing_record reassign_guards
    reassign-write h k m c = ground (arith, write-moved moved db c)

    pub reassign-conflict :
        r.status ≡ draft
        → pushed_or_sent_any (invoices_of r.pk db) ≡ false
        → checked_month plan month today ≡ ok (new_month, count)
        → conflicts r.pk r.member_id plan.season db.records ≡ true
        → reassign_draft_billing_record r plan month today db ≡ (err integrity_error, db)
    unfolding reassign_draft_billing_record reassign_guards
    reassign-conflict h k m c = ground (arith, write-conflict moved db c)

  pub data Reassigns : Result BillingRecord × Db → Type 0 where
    refused : (e : Error) → Reassigns (err e, db)
    moves :
        (new_month : Text) (count : Option ℕ)
        → r.status ≡ draft
        → pushed_or_sent_any (invoices_of r.pk db) ≡ false
        → checked_month plan month today ≡ ok (new_month, count)
        → conflicts r.pk r.member_id plan.season db.records ≡ false
        → Reassigns (ok (moved new_month count), moved_db new_month count)

  draft-Reassigns :
      r.status ≡ draft → Reassigns (reassign_draft_billing_record r plan month today db)
  draft-Reassigns h = elim (Bool-cases (pushed_or_sent_any (invoices_of r.pk db))) [
    | inl k ↦ rw (reassign-pushed h k) (refused pushed_or_sent)
    | inr k ↦ elim (Result-cases (checked_month plan month today)) [
      | inr (e, m) ↦ rw (reassign-bad_month e h k m) (refused e)
      | inl ((new_month, count), m) ↦
          elim (Bool-cases (conflicts r.pk r.member_id plan.season db.records)) [
            | inl c ↦ rw (reassign-conflict new_month count h k m c) (refused integrity_error)
            | inr c ↦ rw (reassign-write new_month count h k m c) (moves new_month count h k m c)
          ]
    ]
  ]

  pub reassign-Reassigns : Reassigns (reassign_draft_billing_record r plan month today db)
  reassign-Reassigns = by_status r.status refl
    where
      by_status :
          (s : RecordStatus)
          → r.status ≡ s
          → Reassigns (reassign_draft_billing_record r plan month today db)
      by_status draft h = draft-Reassigns h
      by_status confirmed h = rw (reassign-confirmed h) (refused not_draft)
