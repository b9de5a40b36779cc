-- ===== src/Agreements/Effects/Ends.antt =====
-- `discontinue_agreement`, on every branch.
use fk_cesis_mms.Base.{
  ℕ, ◌≡◌, refl, true, false, List, [], ◌∷◌, some, arith, Option, Bool-cases, inl, inr, length,
}
use fk_cesis_mms.Base.Text.{Text, codes, text_eq}
use fk_cesis_mms.Errors.{err, discontinue_needs_signed}
use fk_cesis_mms.Models.{
  Agreement, Actor, Member, Db, find_agreement, discontinued_mail, member_discontinued,
  LifecycleEvent, archive_invoice, cancel_invoice,
}
use fk_cesis_mms.Models.Action.{◌>>=◌, ◌>>◌, Action, atomic, modify, pure}
use fk_cesis_mms.Billing.Calendar.{Date}
use fk_cesis_mms.Billing.Store.{add_audit}
use fk_cesis_mms.Billing.Discontinue.{create_discontinuation_adjustments}
use fk_cesis_mms.Agreements.Clock.{Clock}
use fk_cesis_mms.Agreements.Number.{save_agreement}
use fk_cesis_mms.Agreements.Signing.{send_mail, save_member, member_of}
use fk_cesis_mms.Agreements.Amend.{
  is_signed, add_event, credit_summary, enqueue_action, enqueue_actions, as_discontinued, leaving,
  end_event, end_participation, discontinue_agreement,
}
use fk_cesis_mms.Agreements.States.{Succeeds}
use fk_cesis_mms.Agreements.Rows.Distinct.{Distinct}
use fk_cesis_mms.Agreements.Rows.Evolves.{Evolves, keeps}
use fk_cesis_mms.Agreements.Rows.Quiet.{
  Quiet, >>=-Quiet, pure-Quiet, finally-Quiet, deliver-Quiet, send_mail-Quiet, add_audit-Quiet,
  save_member-Quiet, member_of-Quiet, adjustments-Quiet,
}
use fk_cesis_mms.Agreements.Effects.Save.{Quiet-Evolves, saved-Evolves}
use fk_cesis_mms.Agreements.Effects.Sending.{bind-Evolves, atomic-Evolves}

add_event-Quiet : (event : LifecycleEvent) → Quiet (modify (add_event event))
add_event-Quiet event = record { leaves = λ db. (refl, omega arith) }

enqueue_one-Quiet : (k : ℕ) (action : Text) → Quiet (enqueue_action k action)
enqueue_one-Quiet k action = elim (Bool-cases (text_eq action (codes "archive"))) [
  | inl e ↦ rw e (deliver-Quiet (archive_invoice k))
  | inr e ↦ elim (Bool-cases (text_eq action (codes "cancel"))) [
    | inl f ↦ rw (e, f) (deliver-Quiet (cancel_invoice k))
    | inr f ↦ rw (e, f) (pure-Quiet tt)
  ]
]

enqueue-Quiet : (actions : List (ℕ × Text)) → Quiet (enqueue_actions actions)
unfolding enqueue_actions
enqueue-Quiet [] = pure-Quiet tt
enqueue-Quiet ((k, action) ∷ actions) =
    >>=-Quiet (enqueue_one-Quiet k action) (λ _. enqueue-Quiet actions)

module _ (a : Agreement) (actor : Option Actor) (date : Date) (reason : Text) (ids : List ℕ)
    (now : ℕ) (db : Db) where
  pub discontinue-refused :
      is_signed a.state ≡ false
      → discontinue_agreement a actor date reason ids now db ≡ (err discontinue_needs_signed, db)
  unfolding discontinue_agreement
  discontinue-refused e = ground arith

  -- What follows the block.
  abbrev pub announce_end : Member → List (ℕ × Text) → Action Agreement
  announce_end member actions =
      enqueue_actions actions
      >> (send_mail member.guardian_email
            (discontinued_mail member.guardian_email date reason (credit_summary actions))
          >> (modify (add_audit (member_discontinued member.pk date reason 0 (length actions)))
              >> pure (as_discontinued a)))

  abbrev pub end_on : Member → Action Agreement
  end_on member =
      atomic (end_participation a member actor date reason ids now) >>= announce_end member

  pub discontinue-passed :
      is_signed a.state ≡ true
      → discontinue_agreement a actor date reason ids now db ≡ (member_of a >>= end_on) db
  unfolding discontinue_agreement
  discontinue-passed e = rw e refl

  pub announce-Quiet :
      (member : Member) (actions : List (ℕ × Text)) → Quiet (announce_end member actions)
  announce-Quiet member actions = >>=-Quiet (enqueue-Quiet actions) (λ _.
      >>=-Quiet
        (send_mail-Quiet member.guardian_email
          (discontinued_mail member.guardian_email date reason (credit_summary actions)))
        (λ _.
          finally-Quiet (as_discontinued a)
            (add_audit-Quiet (member_discontinued member.pk date reason 0 (length actions)))))

module _ (clock : Clock) (prefix : Text) (a : Agreement) (db : Db) (d : Distinct db.agreements)
    (found : find_agreement a.pk db.agreements ≡ some a) (actor : Option Actor) (date : Date)
    (reason : Text) (ids : List ℕ) (now : ℕ) where
  end-Evolves :
      (member : Member)
      → is_signed a.state ≡ true
      → Evolves clock prefix db (end_participation a member actor date reason ids now db).1
  unfolding end_participation
  end-Evolves member e =
      let adjust = create_discontinuation_adjustments member.pk ids reason now in
      let quiet = adjustments-Quiet member.pk ids reason now in
      let (same, _) = quiet.leaves db in
      let s : Succeeds a (as_discontinued a) = (refl, refl, refl, refl, ground arith, inl refl) in
      bind-Evolves clock prefix adjust
        (λ actions.
          modify (save_agreement a.pk as_discontinued)
          >> (modify (save_member member.pk (leaving date reason now))
              >> (modify (add_event (end_event a.pk date reason actor actions)) >> pure actions)))
        db (Quiet-Evolves clock prefix db quiet)
        λ actions _.
          saved-Evolves clock prefix (adjust db).1 a.pk as_discontinued a
            (>>=-Quiet (save_member-Quiet member.pk (leaving date reason now)) (λ _.
              finally-Quiet actions (add_event-Quiet (end_event a.pk date reason actor actions))))
            (rw same d) (rw same found) s

module _ (clock : Clock) (prefix : Text) (a : Agreement) (db : Db) (d : Distinct db.agreements)
    (found : find_agreement a.pk db.agreements ≡ some a) (actor : Option Actor) (date : Date)
    (reason : Text) (ids : List ℕ) (now : ℕ) where
  pub discontinue-Evolves :
      Evolves clock prefix db (discontinue_agreement a actor date reason ids now db).1
  discontinue-Evolves = elim (Bool-cases (is_signed a.state)) [
    | inr e ↦ rw (discontinue-refused a actor date reason ids now db e) (keeps refl (omega arith))
    | inl e ↦
        let loaded = member_of-Quiet a in
        let (same, _) = loaded.leaves db in
        let db' = (member_of a db).1 in
        rw (discontinue-passed a actor date reason ids now db e) (
          bind-Evolves clock prefix (member_of a) (end_on a actor date reason ids now db) db
            (Quiet-Evolves clock prefix db loaded)
            λ member _.
              bind-Evolves clock prefix
                (atomic (end_participation a member actor date reason ids now))
                (announce_end a actor date reason ids now db member) db'
                (atomic-Evolves clock prefix (end_participation a member actor date reason ids now)
                  db'
                  (end-Evolves clock prefix a db' (rw same d) (rw same found) actor date reason ids
                    now member e))
                λ actions _.
                  Quiet-Evolves clock prefix
                    (atomic (end_participation a member actor date reason ids now) db').1
                    (announce-Quiet a actor date reason ids now db member actions))
  ]
