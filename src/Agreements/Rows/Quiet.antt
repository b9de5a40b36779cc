-- ===== src/Agreements/Rows/Quiet.antt =====
-- Calls that leave the stored agreements alone.
use fk_cesis_mms.Base.{
  ℕ, ◌≤◌, ◌≡◌, refl, ◌∙◌, Bool, not, Option, some, List, [], ◌∷◌, arith, length, ◌==◌, Bool-cases,
  inl, inr,
}
use fk_cesis_mms.Base.Text.{Text}
use fk_cesis_mms.Errors.{Error, Result, ok, err, foreign_invoice}
use fk_cesis_mms.Models.{
  Agreement, AgreementMail, Outgoing, mail, AuditEvent, Member, BillingInvoice, Db,
}
use fk_cesis_mms.Models.Action.{Action, ◌>>=◌, pure, gets, lift, raise_if, modify}
use fk_cesis_mms.Billing.Store.{add_audit}
use fk_cesis_mms.Billing.Draft.{create_draft_billing, create_draft_billing_for_member}
use fk_cesis_mms.Billing.Draft.Laws.{
  Drafts, create_draft-Drafts, raised, no_plan_found, kept, added,
}
use fk_cesis_mms.Billing.Discontinue.{
  cancel_all, process_selected, create_discontinuation_adjustments, save_invoice, cancelled,
  jobs_of,
}
use fk_cesis_mms.Agreements.Signing.{
  save_member, deliver, send_mail, member_of, should_send_email, send_agreement_email,
}
use fk_cesis_mms.Agreements.Signed.{on_agreement_signed}

-- No agreement is touched, whether the call returns or raises, and keys only grow.
pub record Quiet {A : Type 0} (m : Action A) : Type 0 where
  pub leaves : (db : Db) → ((m db).1.agreements ≡ db.agreements) × (db.next_pk ≤ (m db).1.next_pk)

module _ {A B : Type 0} {m : Action A} {k : A → Action B} where
  bind-leaves :
      Quiet m
      → ((a : A) → Quiet (k a))
      → (db : Db)
      → (((m >>= k) db).1.agreements ≡ db.agreements) × (db.next_pk ≤ ((m >>= k) db).1.next_pk)
  bind-leaves h hs db =
      let (same, more) = h.leaves db in
      elim (m db).0
        as (λ r.
          ((elim r as (λ _. Result B × Db) [
            | ok a ↦ k a (m db).1
            | err e ↦ (err e, (m db).1)
          ]).1.agreements
            ≡ db.agreements)
          × (db.next_pk
              ≤ (elim r as (λ _. Result B × Db) [
                | ok a ↦ k a (m db).1
                | err e ↦ (err e, (m db).1)
              ]).1.next_pk)) [
                | err e ↦ (same, more)
                | ok a ↦
                    let (same', more') = (hs a).leaves (m db).1 in
                    (same' ∙ same, omega (arith, more, more'))
              ]

  pub >>=-Quiet : Quiet m → ((a : A) → Quiet (k a)) → Quiet (m >>= k)
  >>=-Quiet h hs = record { leaves = bind-leaves h hs }

module _ {A : Type 0} where
  pub pure-Quiet : (a : A) → Quiet (pure a)
  pure-Quiet a = record { leaves = λ db. (refl, omega arith) }

  pub gets-Quiet : {f : Db → A} → Quiet (gets f)
  gets-Quiet = record { leaves = λ db. (refl, omega arith) }

  pub lift-Quiet : {r : Result A} → Quiet (lift r)
  lift-Quiet = record { leaves = λ db. (refl, omega arith) }

pub raise_if-Quiet : (c : Bool) (e : Error) → Quiet (raise_if c e)
raise_if-Quiet c e = record { leaves = λ db. (refl, omega arith) }

pub deliver-Quiet : (item : Outgoing) → Quiet (deliver item)
unfolding deliver
deliver-Quiet item = record { leaves = λ db. ground arith }

pub send_mail-Quiet : (to : Text) (item : Outgoing) → Quiet (send_mail to item)
unfolding send_mail
send_mail-Quiet [] item = pure-Quiet tt
send_mail-Quiet (c ∷ s) item = deliver-Quiet item

pub add_audit-Quiet : (event : AuditEvent) → Quiet (modify (add_audit event))
add_audit-Quiet event = record { leaves = λ db. (refl, omega arith) }

pub save_member-Quiet : (k : ℕ) (f : Member → Member) → Quiet (modify (save_member k f))
save_member-Quiet k f = record { leaves = λ db. (refl, omega arith) }

-- What returns a value in the end.
pub finally-Quiet : {A B : Type 0} {m : Action A} (b : B) → Quiet m → Quiet (m >>= λ _. pure b)
finally-Quiet b h = >>=-Quiet h (λ _. pure-Quiet b)

pub member_of-Quiet : (a : Agreement) → Quiet (member_of a)
unfolding member_of
member_of-Quiet a = record { leaves = λ db. ground arith }

pub send_email-Quiet :
    (a : Agreement) (template : AgreementMail) → Quiet (send_agreement_email a template)
unfolding send_agreement_email
send_email-Quiet a template = elim (Bool-cases (should_send_email a.signing_path template)) [
  | inr e ↦ rw e (pure-Quiet tt)
  | inl e ↦ rw e (
      >>=-Quiet (member_of-Quiet a)
        λ member. send_mail-Quiet member.guardian_email (mail template member.guardian_email))
]

Drafts-Quiet :
    (n : Bool) (m : Member) (a : Option Agreement) (db : Db) {out : Result _ × Db}
    → Drafts n m a db out
    → (out.1.agreements ≡ db.agreements) × (db.next_pk ≤ out.1.next_pk)
Drafts-Quiet n m a db (raised e) = (refl, omega arith)
Drafts-Quiet n m a db (no_plan_found h) = (refl, omega arith)
Drafts-Quiet n m a db (kept p r h found) = (refl, omega arith)
Drafts-Quiet n m a db (added p amounts scheduled h missing made) = (refl, omega arith)

create_draft-Quiet :
    (n : Bool) (m : Member) (a : Option Agreement) → Quiet (create_draft_billing_for_member n m a)
unfolding create_draft_billing_for_member
create_draft-Quiet n m a =
    >>=-Quiet {m = create_draft_billing n m a}
      (record { leaves = λ db. Drafts-Quiet n m a db (create_draft-Drafts n m a db) })
      (λ (r, _). pure-Quiet r)

pub on_signed-Quiet : (n : Bool) (a : Agreement) → Quiet (on_agreement_signed n a)
unfolding on_agreement_signed
on_signed-Quiet n a =
    >>=-Quiet (member_of-Quiet a)
      (λ m. >>=-Quiet (create_draft-Quiet n m (some a)) (λ r. pure-Quiet tt))

cancel_all-same :
    (now : ℕ) (reason : Text) (selected : List BillingInvoice) (db : Db)
    → ((cancel_all now reason selected db).agreements ≡ db.agreements)
      × ((cancel_all now reason selected db).next_pk ≡ db.next_pk)
unfolding cancel_all
cancel_all-same now reason [] db = (refl, refl)
cancel_all-same now reason (i ∷ rest) db =
    cancel_all-same now reason rest (save_invoice (cancelled now reason i) db)

process-Quiet :
    (selected : List BillingInvoice) (reason : Text) (now : ℕ)
    → Quiet (process_selected selected reason now)
unfolding process_selected
process-Quiet selected reason now = >>=-Quiet lift-Quiet (λ _.
    >>=-Quiet {m = modify (cancel_all now reason selected)}
      (record {
        leaves = λ db.
            let (same, keys) = cancel_all-same now reason selected db in
            (same, omega (arith, keys));
      })
      (λ _. pure-Quiet (jobs_of selected)))

pub adjustments-Quiet :
    (member_id : ℕ) (ids : List ℕ) (reason : Text) (now : ℕ)
    → Quiet (create_discontinuation_adjustments member_id ids reason now)
unfolding create_discontinuation_adjustments
adjustments-Quiet member_id [] reason now = pure-Quiet []
adjustments-Quiet member_id (k ∷ ids) reason now = >>=-Quiet gets-Quiet (λ selected.
    >>=-Quiet (raise_if-Quiet (not (length selected == length (k ∷ ids))) foreign_invoice)
      (λ _. process-Quiet selected reason now))
