-- ===== src/Agreements/Effects/Sending.antt =====
-- `mark_agreement_sent` and the sync of the signing path.
use fk_cesis_mms.Base.{
  ℕ, ◌≡◌, refl, ◌∙◌, ◌⊎◌, inl, inr, true, false, some, arith, Bool-cases, Option-cases,
}
use fk_cesis_mms.Base.Text.{Text, is_blank}
use fk_cesis_mms.Errors.{Result, ok, err, Result-cases, cannot_mark_sent, does_not_exist}
use fk_cesis_mms.Models.{Agreement, paper, Db, find_agreement, find_member}
use fk_cesis_mms.Models.Action.{Action, atomic, modify, pure, ◌>>=◌, ◌>>◌}
use fk_cesis_mms.Agreements.Clock.{Clock}
use fk_cesis_mms.Agreements.Number.{save_agreement}
use fk_cesis_mms.Agreements.Signing.{
  member_of, with_path, write_back, set_signing_path, path_eq, is_generated, path_to_send,
  announce_sent, as_sent, mark_agreement_sent, is_electronic,
}
use fk_cesis_mms.Agreements.States.{Succeeds}
use fk_cesis_mms.Agreements.Rows.Evolves.{Evolves, keeps, steps, IsSound, Evolves-IsSound}
use fk_cesis_mms.Agreements.Rows.Quiet.{finally-Quiet}
use fk_cesis_mms.Agreements.Effects.Save.{saved-Evolves, find-saved}
use fk_cesis_mms.Agreements.Effects.Signing.{
  set_path-new, set_path-Evolves, write_back-Quiet, announce_sent-Quiet,
}

module _ (clock : Clock) (prefix : Text) where
  -- A call and what follows it.
  pub bind-Evolves :
      {A B : Type 0} (m : Action A) (k : A → Action B) (db : Db)
      → Evolves clock prefix db (m db).1
      → ((x : A) → (m db).0 ≡ ok x → Evolves clock prefix (m db).1 (k x (m db).1).1)
      → Evolves clock prefix db ((m >>= k) db).1
  bind-Evolves {B = B} m k db first second = go (m db).0 refl
    where
      go :
          (r : Result _)
          → (m db).0 ≡ r
          → Evolves clock prefix db
              (elim r as (λ _. Result B × Db) [ ok x ↦ k x (m db).1 | err e ↦ (err e, (m db).1) ]).1
      go (err e) h = first
      go (ok x) h = steps first (second x h)

  pub atomic-Evolves :
      {A : Type 0} (m : Action A) (db : Db)
      → Evolves clock prefix db (m db).1
      → Evolves clock prefix db (atomic m db).1
  unfolding atomic
  atomic-Evolves m db h = elim (Result-cases (m db).0) [
    | inl (x, e) ↦ rw (atomic, e) h
    | inr (x, e) ↦ rw (atomic, e) (keeps refl (omega arith))
  ]

-- What follows once the path is settled.
abbrev pub send_on : ℕ → Agreement → Action Agreement
send_on now b =
    modify (save_agreement b.pk (as_sent now)) >> (announce_sent b >> pure (as_sent now b))

module _ (a : Agreement) (db : Db) where
  -- The path stays, or no guardian is found, or the agreement goes to paper.
  pub path-cases :
      ((path_to_send a db ≡ (ok a, db)) ⊎ (path_to_send a db ≡ (err does_not_exist, db)))
      ⊎ ((path_to_send a db ≡ set_signing_path a paper db) × (path_eq a.signing_path paper ≡ false))
  unfolding path_to_send member_of
  path-cases = elim (Bool-cases (is_electronic a.signing_path)) [
    | inr e ↦ inl (inl (ground arith))
    | inl e ↦ elim (Option-cases (find_member a.member_id db.members)) [
      | inl missing ↦ inl (inr (ground arith))
      | inr (m, found) ↦ elim (Bool-cases (is_blank m.guardian_email)) [
        | inr mailed ↦ inl (inl (ground arith))
        | inl blank ↦ inr (ground arith, ground arith)
      ]
    ]
  ]

  pub send-refused :
      (now : ℕ)
      → is_generated a.state ≡ false
      → mark_agreement_sent a now db ≡ (err cannot_mark_sent, db)
  unfolding mark_agreement_sent
  send-refused now e = ground arith

  pub send-passed :
      (now : ℕ)
      → is_generated a.state ≡ true
      → mark_agreement_sent a now db ≡ (path_to_send a >>= send_on now) db
  unfolding mark_agreement_sent
  send-passed now e = rw e refl

-- The value of a call that returns `b` in the end.
then_value :
    {A B : Type 0} (m : Action A) (b : B) (db : Db) (c : B)
    → ((m >>= λ _. pure b) db).0 ≡ ok c
    → b ≡ c
then_value m b db c h = elim (Result-cases (m db).0) [
  | inl (x, e) ↦ ground (arith, h, e)
  | inr (x, e) ↦ absurd (ground (arith, h, e))
]

module _ (a : Agreement) (db : Db) (found : find_agreement a.pk db.agreements ≡ some a) where
  -- What is known of the agreement that `path_to_send` gives.
  abbrev IsReady : Agreement → Db → Type 0
  IsReady b db' =
      (find_agreement b.pk db'.agreements ≡ some b) × (is_generated b.state ≡ is_generated a.state)

  paper-row :
      find_agreement a.pk (save_agreement a.pk (with_path paper) db).agreements
      ≡ some (with_path paper a)
  paper-row = find-saved a.pk (with_path paper) a db.agreements found refl

  written-IsReady :
      (b : Agreement)
      → ((write_back a paper >> pure (with_path paper a))
          (save_agreement a.pk (with_path paper) db)).0
        ≡ ok b
      → IsReady b
          ((write_back a paper >> pure (with_path paper a))
            (save_agreement a.pk (with_path paper) db)).1
  written-IsReady b h =
      let quiet = finally-Quiet (with_path paper a) (write_back-Quiet a paper) in
      let (same, _) = quiet.leaves (save_agreement a.pk (with_path paper) db) in
      let is =
        then_value (write_back a paper) (with_path paper a)
          (save_agreement a.pk (with_path paper) db) b h in
      rw (same, ← is) (paper-row, refl)

  pub path-IsReady :
      (b : Agreement) → (path_to_send a db).0 ≡ ok b → IsReady b (path_to_send a db).1
  path-IsReady b h = elim (path-cases a db) [
    | inl (inl e) ↦ let is : a ≡ b = cc (rw e at h) in rw (e, ← is) (found, refl)
    | inl (inr e) ↦ absurd (cc (rw e at h))
    | inr (e, other) ↦
        rw (e, set_path-new a db paper other)
          (written-IsReady b (rw (e, set_path-new a db paper other) at h))
  ]

module _ (clock : Clock) (prefix : Text) (a : Agreement) (db : Db) (sound : IsSound clock prefix db)
    (found : find_agreement a.pk db.agreements ≡ some a) where
  path-Evolves : Evolves clock prefix db (path_to_send a db).1
  path-Evolves = elim (path-cases a db) [
    | inl (inl e) ↦ rw e (keeps refl (omega arith))
    | inl (inr e) ↦ rw e (keeps refl (omega arith))
    | inr (e, other) ↦ rw e (set_path-Evolves clock prefix a db sound.0 found paper)
  ]

  sent-Succeeds :
      (now : ℕ) (b : Agreement) → is_generated b.state ≡ true → Succeeds b (as_sent now b)
  sent-Succeeds now b h = (refl, refl, refl, refl, ground arith, inl refl)

  pub send-Evolves : (now : ℕ) → Evolves clock prefix db (mark_agreement_sent a now db).1
  send-Evolves now = elim (Bool-cases (is_generated a.state)) [
    | inr e ↦ rw (send-refused a db now e) (keeps refl (omega arith))
    | inl e ↦ rw (send-passed a db now e) (
        bind-Evolves clock prefix (path_to_send a) (send_on now) db path-Evolves λ b h.
          let (row, state) = path-IsReady a db found b h in
          saved-Evolves clock prefix (path_to_send a db).1 b.pk (as_sent now) b
            (finally-Quiet (as_sent now b) (announce_sent-Quiet b))
            (Evolves-IsSound clock prefix path-Evolves sound).0 row
            (sent-Succeeds now b (state ∙ e)))
  ]
