-- ===== src/Agreements/Laws/Sends.antt =====
-- What leaves the program when an agreement is sent.
use fk_cesis_mms.Base.{
  ℕ, ◌≡◌, refl, sym, ap, ◌∙◌, true, false, ◌&&◌, some, List, [], ◌∷◌, arith, ◌==◌, Bool-cases,
  Option-cases, inl, inr, ==_refl,
}
use mathlib.Core.Path.{subst}
use fk_cesis_mms.Base.Text.{Text, is_blank}
use fk_cesis_mms.Errors.{Result, ok, err}
use fk_cesis_mms.Models.{
  Agreement, SigningPath, electronic, paper, Member, Outgoing, sent, Db, find_agreement,
  find_member,
}
use fk_cesis_mms.Models.Action.{◌>>◌, pure}
use fk_cesis_mms.Agreements.Number.{save_agreement}
use fk_cesis_mms.Agreements.Signing.{
  member_of, update_member, save_member, with_preference, with_path, write_back, set_signing_path,
  is_generated, path_to_send, announce_sent, as_sent, mark_agreement_sent, is_electronic,
}
use fk_cesis_mms.Agreements.Effects.Save.{find-saved}
use fk_cesis_mms.Agreements.Effects.Signing.{announce_sent-Quiet}
use fk_cesis_mms.Agreements.Effects.Sending.{send_on, send-passed}
use fk_cesis_mms.Agreements.Laws.Notices.{sending_path, notices, TakesAll, announce_lem}

-- What a sent agreement and its database are.
abbrev pub IsSent : ℕ → Agreement → Text → List Outgoing → Result Agreement × Db → Type 0
IsSent now a email box out =
    let b = record a {
      state = sent;
      sent_at = some now;
      signing_path = sending_path a.signing_path email;
    } in
    (out.0 ≡ ok b)
    × (find_agreement a.pk out.1.agreements ≡ some b)
    × (out.1.outbox ≡ notices (sending_path a.signing_path email) a.pk email box)

-- The last part, for the agreement on its path.
send_on_lem :
    (now : ℕ) (path : SigningPath) (b : Agreement) (m : Member) (db : Db)
    → TakesAll db
    → b.signing_path ≡ path
    → find_agreement b.pk db.agreements ≡ some b
    → find_member b.member_id db.members ≡ some m
    → let out = send_on now b db in
      (out.0 ≡ ok (as_sent now b))
      × (find_agreement b.pk out.1.agreements ≡ some (as_sent now b))
      × (out.1.outbox ≡ notices path b.pk m.guardian_email db.outbox)
send_on_lem now path b m db takes e stored found =
    let db' = save_agreement b.pk (as_sent now) db in
    let (done, box) = announce_lem path m.guardian_email b m db' takes e refl found in
    let quiet = announce_sent-Quiet b in
    let (rows, _) = quiet.leaves db' in
    let ends : (announce_sent b >> pure (as_sent now b)) db'
        ≡ (ok (as_sent now b), (announce_sent b db').1) =
      cc in
    subst
      (λ out.
        (out.0 ≡ ok (as_sent now b))
        × (find_agreement b.pk out.1.agreements ≡ some (as_sent now b))
        × (out.1.outbox ≡ notices path b.pk m.guardian_email db.outbox))
      (sym ends)
      (
        refl,
        ap (find_agreement b.pk) rows ∙ find-saved b.pk (as_sent now) b db.agreements stored refl,
        box,
      )

preference-keeps :
    (path : SigningPath) (m : Member)
    → ((with_preference path m).pk ≡ m.pk)
      × ((with_preference path m).guardian_email ≡ m.guardian_email)
preference-keeps path m = elim (Option-cases m.source_application) [
  | inl e ↦ rw e (refl, refl)
  | inr (application, e) ↦ rw e (refl, refl)
]

found-here :
    (k : ℕ) (path : SigningPath) (n : Member) (members : List Member)
    → (n.pk == k) ≡ true
    → find_member k (update_member n.pk (with_preference path) (n ∷ members))
      ≡ some (with_preference path n)
found-here k path n members e =
    let (key, _) = preference-keeps path n in rw (==_refl n.pk, key, e) refl

found-later :
    (k : ℕ) (path : SigningPath) (n : Member) (members : List Member) (m : Member)
    → (n.pk == k) ≡ false
    → find_member k (update_member m.pk (with_preference path) members)
      ≡ some (with_preference path m)
    → find_member k (update_member m.pk (with_preference path) (n ∷ members))
      ≡ some (with_preference path m)
found-later k path n members m e rest =
    let (key, _) = preference-keeps path n in
    elim (Bool-cases (n.pk == m.pk)) [ inl f ↦ rw (f, key, e) rest | inr f ↦ rw (f, e) rest ]

-- The member with the preference is found, with the same address.
find-preference :
    (k : ℕ) (path : SigningPath) (members : List Member) (m : Member)
    → find_member k members ≡ some m
    → find_member k (update_member m.pk (with_preference path) members)
      ≡ some (with_preference path m)
find-preference k path [] m h = absurd (cc)
find-preference k path (n ∷ members) m h = elim (Bool-cases (n.pk == k)) [
  | inl e ↦
      let same : n ≡ m = cc (rw e at h) in
      subst
        (λ x.
          find_member k (update_member x.pk (with_preference path) (n ∷ members))
          ≡ some (with_preference path x))
        same (found-here k path n members e)
  | inr e ↦
      let rest = find-preference k path members m (rw e at h) in
      found-later k path n members m e rest
]

module _ (a : Agreement) (m : Member) (db : Db)
    (found : find_member a.member_id db.members ≡ some m) where
  path-kept :
      (is_electronic a.signing_path && is_blank m.guardian_email) ≡ false
      → path_to_send a db ≡ (ok a, db)
  unfolding path_to_send member_of
  path-kept e = elim (Bool-cases (is_electronic a.signing_path)) [
    | inr f ↦ ground (arith, f)
    | inl f ↦ ground (arith, f, e, found)
  ]

  -- The database in which the agreement is on paper, and the preference too.
  abbrev paper_db : Db
  paper_db = save_member m.pk (with_preference paper) (save_agreement a.pk (with_path paper) db)

  path-paper :
      a.signing_path ≡ electronic
      → is_blank m.guardian_email ≡ true
      → path_to_send a db ≡ (ok (with_path paper a), paper_db)
  unfolding path_to_send set_signing_path write_back member_of
  path-paper e f = ground (arith, e, f, found)

module _ (now : ℕ) (a : Agreement) (m : Member) (db : Db)
    (generated_still : is_generated a.state ≡ true)
    (stored : find_agreement a.pk db.agreements ≡ some a)
    (found : find_member a.member_id db.members ≡ some m) (takes : TakesAll db) where
  by_path :
      (b : Agreement) (db' : Db)
      → path_to_send a db ≡ (ok b, db')
      → mark_agreement_sent a now db ≡ send_on now b db'
  by_path b db' h =
      send-passed a db now generated_still
      ∙ ap
          (λ out. elim out.0 as (λ _. Result Agreement × Db) [
            | ok x ↦ send_on now x out.1
            | err e ↦ (err e, out.1)
          ])
          h

  kept-IsSent :
      (is_electronic a.signing_path && is_blank m.guardian_email) ≡ false
      → sending_path a.signing_path m.guardian_email ≡ a.signing_path
      → IsSent now a m.guardian_email db.outbox (mark_agreement_sent a now db)
  kept-IsSent e same =
      subst (IsSent now a m.guardian_email db.outbox)
        (sym (by_path a db (path-kept a m db found e)))
        (rw same (send_on_lem now a.signing_path a m db takes refl stored found))

  paper-IsSent :
      a.signing_path ≡ electronic
      → is_blank m.guardian_email ≡ true
      → sending_path a.signing_path m.guardian_email ≡ paper
      → IsSent now a m.guardian_email db.outbox (mark_agreement_sent a now db)
  paper-IsSent e blank same =
      let db' = paper_db a m db found in
      let (_, email) = preference-keeps paper m in
      let row = find-saved a.pk (with_path paper) a db.agreements stored refl in
      let sent =
        send_on_lem now paper (with_path paper a) (with_preference paper m) db' takes refl row
          (find-preference a.member_id paper db.members m found) in
      subst (IsSent now a m.guardian_email db.outbox)
        (sym (by_path (with_path paper a) db' (path-paper a m db found e blank)))
        (rw same (sent.0, sent.1, sent.2 ∙ ap (λ s. notices paper a.pk s db.outbox) email))

  -- Where no mail and no job is refused, sending a stored generated agreement, whose member is
  -- stored, always returns, with the agreement stored in the state sent and with the time of the
  -- call. An electronic agreement whose guardian has no address goes to paper. On the electronic
  -- path the submission mails the guardian; on paper the submission mails nobody, and the club's
  -- own mail goes out before it if there is an address.
  pub send-IsSent : IsSent now a m.guardian_email db.outbox (mark_agreement_sent a now db)
  send-IsSent = by_case a.signing_path refl m.guardian_email refl
    where
      by_case :
          (path : SigningPath)
          → a.signing_path ≡ path
          → (email : Text) → m.guardian_email ≡ email
          → IsSent now a m.guardian_email db.outbox (mark_agreement_sent a now db)
      by_case paper e email f = kept-IsSent (rw e refl) (rw e refl)
      by_case electronic e [] f = paper-IsSent e (rw f refl) (rw (e, f) refl)
      by_case electronic e (c ∷ s) f = kept-IsSent (rw (e, f) refl) (rw (e, f) refl)
