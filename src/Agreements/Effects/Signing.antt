-- ===== src/Agreements/Effects/Signing.antt =====
-- The signing path, sending, signing and voiding.
use fk_cesis_mms.Base.{
  ℕ, ◌≡◌, refl, Bool, true, false, Option, some, [], ◌∷◌, if◌then◌else◌, arith, inl, inr,
  Bool-cases,
}
use fk_cesis_mms.Base.Text.{Text, is_blank}
use fk_cesis_mms.Errors.{Error, ok, err, Result-cases}
use fk_cesis_mms.Models.{
  Agreement, SigningPath, Actor, Db, find_agreement, sent_mail, signed_mail, void_mail,
  agreement_sent, agreement_signed, agreement_voided, create_submission, archive_submission,
}
use fk_cesis_mms.Models.Action.{pure, ◌>>◌}
use fk_cesis_mms.Agreements.Clock.{Clock}
use fk_cesis_mms.Agreements.Number.{save_agreement}
use fk_cesis_mms.Agreements.Signing.{
  deliver, with_preference, with_path, write_back, set_signing_path, announce_sent, is_electronic,
  path_eq,
}
use fk_cesis_mms.Agreements.Signed.{
  signing_guards, as_signed, announce_signed, signer_label, mark_agreement_signed, as_void,
  announce_void, void_agreement,
}
use fk_cesis_mms.Agreements.Create.{is_void}
use fk_cesis_mms.Agreements.States.{Succeeds, later_refl}
use fk_cesis_mms.Agreements.Rows.Distinct.{Distinct}
use fk_cesis_mms.Agreements.Rows.Evolves.{Evolves, keeps}
use fk_cesis_mms.Agreements.Rows.Quiet.{
  Quiet, >>=-Quiet, pure-Quiet, finally-Quiet, deliver-Quiet, add_audit-Quiet, save_member-Quiet,
  member_of-Quiet, send_email-Quiet, on_signed-Quiet,
}
use fk_cesis_mms.Agreements.Effects.Save.{saved-Evolves}

pub write_back-Quiet : (a : Agreement) (path : SigningPath) → Quiet (write_back a path)
unfolding write_back
write_back-Quiet a path =
    >>=-Quiet (member_of-Quiet a) (λ member. save_member-Quiet member.pk (with_preference path))

pub announce_sent-Quiet : (a : Agreement) → Quiet (announce_sent a)
unfolding announce_sent
announce_sent-Quiet a = >>=-Quiet (add_audit-Quiet (agreement_sent a.pk a.signing_path)) (λ _.
    >>=-Quiet (send_email-Quiet a sent_mail)
      (λ _. deliver-Quiet (create_submission a.pk (is_electronic a.signing_path))))

pub announce_signed-Quiet :
    (n : Bool) (a : Agreement) (actor : Option Actor) → Quiet (announce_signed n a actor)
unfolding announce_signed
announce_signed-Quiet n a actor =
    >>=-Quiet (add_audit-Quiet (agreement_signed a.pk (signer_label actor)))
      (λ _. >>=-Quiet (send_email-Quiet a signed_mail) (λ _. on_signed-Quiet n a))

archive-Quiet :
    (external_id : Text)
    → Quiet (if is_blank external_id then pure tt else deliver (archive_submission external_id))
archive-Quiet [] = pure-Quiet tt
archive-Quiet (c ∷ s) = deliver-Quiet (archive_submission (c ∷ s))

announce_void-Quiet : (a : Agreement) → Quiet (announce_void a)
unfolding announce_void
announce_void-Quiet a =
    >>=-Quiet (add_audit-Quiet (agreement_voided a.pk))
      (λ _. >>=-Quiet (send_email-Quiet a void_mail) (λ _. archive-Quiet a.external_id))

-- The row with another path is the same agreement.
pub path-Succeeds : (a : Agreement) (path : SigningPath) → Succeeds a (with_path path a)
path-Succeeds a path = (refl, refl, refl, refl, later_refl a.state, inl refl)

module _ (a : Agreement) (db : Db) where
  pub set_path-new :
      (path : SigningPath)
      → path_eq a.signing_path path ≡ false
      → set_signing_path a path db
        ≡ (write_back a path >> pure (with_path path a)) (save_agreement a.pk (with_path path) db)
  unfolding set_signing_path
  set_path-new path e = rw e refl

  set_path-same :
      (path : SigningPath)
      → path_eq a.signing_path path ≡ true
      → set_signing_path a path db ≡ (ok a, db)
  unfolding set_signing_path
  set_path-same path e = rw e refl

  pub void-new :
      (reason : Text) (now : ℕ)
      → is_void a.state ≡ false
      → void_agreement a reason now db
        ≡ (announce_void (as_void now reason a) >> pure (as_void now reason a))
            (save_agreement a.pk (as_void now reason) db)
  unfolding void_agreement
  void-new reason now e = rw e refl

  pub void-old :
      (reason : Text) (now : ℕ)
      → is_void a.state ≡ true
      → void_agreement a reason now db ≡ (ok a, db)
  unfolding void_agreement
  void-old reason now e = rw e refl

  pub sign-refused :
      (n : Bool) (actor : Option Actor) (now : ℕ) (e : Error)
      → signing_guards db.plans a ≡ err e
      → mark_agreement_signed n a actor now db ≡ (err e, db)
  unfolding mark_agreement_signed
  sign-refused n actor now e h = ground arith

  pub sign-passed :
      (n : Bool) (actor : Option Actor) (now : ℕ) (u : Unit {0})
      → signing_guards db.plans a ≡ ok u
      → mark_agreement_signed n a actor now db
        ≡ (announce_signed n (as_signed now a) actor >> pure (as_signed now a))
            (save_agreement a.pk (as_signed now) db)
  unfolding mark_agreement_signed
  sign-passed n actor now u h = ground arith

module _ (clock : Clock) (prefix : Text) (a : Agreement) (db : Db) (d : Distinct db.agreements)
    (found : find_agreement a.pk db.agreements ≡ some a) where
  pub set_path-Evolves :
      (path : SigningPath) → Evolves clock prefix db (set_signing_path a path db).1
  set_path-Evolves path = elim (Bool-cases (path_eq a.signing_path path)) [
    | inl e ↦ rw (set_path-same a db path e) (keeps refl (omega arith))
    | inr e ↦ rw (set_path-new a db path e) (
        saved-Evolves clock prefix db a.pk (with_path path) a
          (finally-Quiet (with_path path a) (write_back-Quiet a path)) d found
          (path-Succeeds a path))
  ]

  void-Succeeds : (reason : Text) (now : ℕ) → Succeeds a (as_void now reason a)
  void-Succeeds reason now = (refl, refl, refl, refl, ground arith, inl refl)

  pub void-Evolves :
      (reason : Text) (now : ℕ) → Evolves clock prefix db (void_agreement a reason now db).1
  void-Evolves reason now = elim (Bool-cases (is_void a.state)) [
    | inl e ↦ rw (void-old a db reason now e) (keeps refl (omega arith))
    | inr e ↦ rw (void-new a db reason now e) (
        saved-Evolves clock prefix db a.pk (as_void now reason) a
          (finally-Quiet (as_void now reason a) (announce_void-Quiet (as_void now reason a))) d
          found (void-Succeeds reason now))
  ]

  sign-Succeeds :
      (now : ℕ) (u : Unit {0}) → signing_guards db.plans a ≡ ok u → Succeeds a (as_signed now a)
  unfolding signing_guards
  sign-Succeeds now u h = (refl, refl, refl, refl, ground (arith, h), inl refl)

  pub sign-Evolves :
      (n : Bool) (actor : Option Actor) (now : ℕ)
      → Evolves clock prefix db (mark_agreement_signed n a actor now db).1
  sign-Evolves n actor now = elim (Result-cases (signing_guards db.plans a)) [
    | inr (e, h) ↦ rw (sign-refused a db n actor now e h) (keeps refl (omega arith))
    | inl (u, h) ↦ rw (sign-passed a db n actor now u h) (
        saved-Evolves clock prefix db a.pk (as_signed now) a
          (finally-Quiet (as_signed now a) (announce_signed-Quiet n (as_signed now a) actor)) d
          found (sign-Succeeds now u h))
  ]
