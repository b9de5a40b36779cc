-- ===== src/Agreements/Laws/Delivers.antt =====
-- Calls that only deliver mails and jobs: what they leave alone, and what they raise.
use fk_cesis_mms.Base.{ℕ, ◌≡◌, refl, ap, ◌∙◌, List, [], ◌∷◌, arith, Bool-cases, inl, inr}
use fk_cesis_mms.Base.Text.{Text, codes, text_eq}
use fk_cesis_mms.Errors.{Error, Result, ok, err, not_delivered}
use fk_cesis_mms.Models.{
  Agreement, AgreementMail, Outgoing, mail, archive_invoice, cancel_invoice, AuditEvent, Db,
}
use fk_cesis_mms.Models.Action.{Action, ◌>>=◌, pure, modify}
use fk_cesis_mms.Billing.Store.{add_audit}
use fk_cesis_mms.Agreements.Signing.{
  deliver, send_mail, member_of, should_send_email, send_agreement_email,
}
use fk_cesis_mms.Agreements.Amend.{enqueue_action, enqueue_actions}

-- No plan, member or agreement is touched, whether the call returns or raises.
pub record Keeps {A : Type 0} (m : Action A) : Type 0 where
  pub keeps :
      (db : Db)
      → ((m db).1.plans ≡ db.plans)
        × ((m db).1.members ≡ db.members)
        × ((m db).1.agreements ≡ db.agreements)

-- The call raises for a refused delivery only.
pub record RaisesUndelivered {A : Type 0} (m : Action A) : Type 0 where
  pub raises : (db : Db) (e : Error) → (m db).0 ≡ err e → e ≡ not_delivered

err-inj : (B : Type 0) (x e : Error) → Path (Result B) (err x) (err e) → x ≡ e
err-inj B x e h = cc

module _ {A B : Type 0} {m : Action A} {k : A → Action B} where
  pub >>=-Keeps : Keeps m → ((a : A) → Keeps (k a)) → Keeps (m >>= k)
  >>=-Keeps h hs = record { keeps = λ db. go db (m db).0 }
    where
      go :
          (db : Db) (r : Result A)
          → let out = elim r as (λ _. Result B × Db) [
            | ok a ↦ k a (m db).1
            | err e ↦ (err e, (m db).1)
          ] in
            (out.1.plans ≡ db.plans)
            × (out.1.members ≡ db.members)
            × (out.1.agreements ≡ db.agreements)
      go db (err e) = h.keeps db
      go db (ok a) =
          let (p, q, r) = h.keeps db in
          let (p', q', r') = (hs a).keeps (m db).1 in (p' ∙ p, q' ∙ q, r' ∙ r)

  pub >>=-RaisesUndelivered :
      RaisesUndelivered m → ((a : A) → RaisesUndelivered (k a)) → RaisesUndelivered (m >>= k)
  >>=-RaisesUndelivered h hs = record { raises = λ db e is. go db e (m db).0 refl is }
    where
      go :
          (db : Db) (e : Error) (r : Result A)
          → (m db).0 ≡ r
          → (elim r as (λ _. Result B × Db) [ ok a ↦ k a (m db).1 | err x ↦ (err x, (m db).1) ]).0
            ≡ err e
          → e ≡ not_delivered
      go db e (err x) same is = h.raises db e (same ∙ ap err (err-inj B x e is))
      go db e (ok a) same is = (hs a).raises (m db).1 e is

module _ {A : Type 0} where
  pub pure-Keeps : (a : A) → Keeps (pure a)
  pure-Keeps a = record { keeps = λ db. (refl, refl, refl) }

  pub pure-RaisesUndelivered : (a : A) → RaisesUndelivered (pure a)
  pure-RaisesUndelivered a = record { raises = λ db e is. absurd (cc) }

pub add_audit-Keeps : (event : AuditEvent) → Keeps (modify (add_audit event))
add_audit-Keeps event = record { keeps = λ db. (refl, refl, refl) }

pub modify-RaisesUndelivered : (f : Db → Db) → RaisesUndelivered (modify f)
modify-RaisesUndelivered f = record { raises = λ db e is. absurd (cc) }

deliver-Keeps : (item : Outgoing) → Keeps (deliver item)
unfolding deliver
deliver-Keeps item = record { keeps = λ db. ground arith }

deliver-RaisesUndelivered : (item : Outgoing) → RaisesUndelivered (deliver item)
unfolding deliver
deliver-RaisesUndelivered item = record { raises = λ db e is. ground arith }

pub send_mail-Keeps : (to : Text) (item : Outgoing) → Keeps (send_mail to item)
unfolding send_mail
send_mail-Keeps [] item = pure-Keeps tt
send_mail-Keeps (c ∷ s) item = deliver-Keeps item

pub send_mail-RaisesUndelivered :
    (to : Text) (item : Outgoing) → RaisesUndelivered (send_mail to item)
unfolding send_mail
send_mail-RaisesUndelivered [] item = pure-RaisesUndelivered tt
send_mail-RaisesUndelivered (c ∷ s) item = deliver-RaisesUndelivered item

member_of-Keeps : (a : Agreement) → Keeps (member_of a)
unfolding member_of
member_of-Keeps a = record { keeps = λ db. ground arith }

pub send_email-Keeps :
    (a : Agreement) (template : AgreementMail) → Keeps (send_agreement_email a template)
unfolding send_agreement_email
send_email-Keeps a template = elim (Bool-cases (should_send_email a.signing_path template)) [
  | inr e ↦ rw e (pure-Keeps tt)
  | inl e ↦ rw e (
      >>=-Keeps (member_of-Keeps a)
        λ member. send_mail-Keeps member.guardian_email (mail template member.guardian_email))
]

enqueue_one-Keeps : (k : ℕ) (action : Text) → Keeps (enqueue_action k action)
enqueue_one-Keeps k action = elim (Bool-cases (text_eq action (codes "archive"))) [
  | inl e ↦ rw e (deliver-Keeps (archive_invoice k))
  | inr e ↦ elim (Bool-cases (text_eq action (codes "cancel"))) [
    | inl f ↦ rw (e, f) (deliver-Keeps (cancel_invoice k))
    | inr f ↦ rw (e, f) (pure-Keeps tt)
  ]
]

enqueue_one-RaisesUndelivered :
    (k : ℕ) (action : Text) → RaisesUndelivered (enqueue_action k action)
enqueue_one-RaisesUndelivered k action = elim (Bool-cases (text_eq action (codes "archive"))) [
  | inl e ↦ rw e (deliver-RaisesUndelivered (archive_invoice k))
  | inr e ↦ elim (Bool-cases (text_eq action (codes "cancel"))) [
    | inl f ↦ rw (e, f) (deliver-RaisesUndelivered (cancel_invoice k))
    | inr f ↦ rw (e, f) (pure-RaisesUndelivered tt)
  ]
]

pub enqueue-Keeps : (actions : List (ℕ × Text)) → Keeps (enqueue_actions actions)
unfolding enqueue_actions
enqueue-Keeps [] = pure-Keeps tt
enqueue-Keeps ((k, action) ∷ actions) =
    >>=-Keeps (enqueue_one-Keeps k action) (λ _. enqueue-Keeps actions)

pub enqueue-RaisesUndelivered :
    (actions : List (ℕ × Text)) → RaisesUndelivered (enqueue_actions actions)
unfolding enqueue_actions
enqueue-RaisesUndelivered [] = pure-RaisesUndelivered tt
enqueue-RaisesUndelivered ((k, action) ∷ actions) =
    >>=-RaisesUndelivered (enqueue_one-RaisesUndelivered k action)
      (λ _. enqueue-RaisesUndelivered actions)
