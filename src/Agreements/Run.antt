-- ===== src/Agreements/Run.antt =====
-- Runs of the services of apps/agreements/services.py: each command loads the rows that it names,
-- as the admin views do, and calls one service; an exception ends the command and not the run.
use fk_cesis_mms.Base.{
  ℕ, ◌≡◌, refl, ap, ◌∙◌, Bool, Option, none, some, List, [], ◌∷◌, arith, Option-cases, inl, inr,
}
use fk_cesis_mms.Base.Text.{Text}
use fk_cesis_mms.Models.{Agreement, SigningPath, Actor, Db, find_agreement}
use fk_cesis_mms.Models.Action.{Action}
use fk_cesis_mms.Billing.Calendar.{Date}
use fk_cesis_mms.Billing.Plan.{MembershipPlan}
use fk_cesis_mms.Agreements.Clock.{Clock}
use fk_cesis_mms.Agreements.Number.{agreement_number_prefix}
use fk_cesis_mms.Agreements.Create.{create_agreement_for_member, regenerate_agreement}
use fk_cesis_mms.Agreements.Signing.{
  set_signing_path, sync_application_signing_path_to_agreement, mark_agreement_sent,
}
use fk_cesis_mms.Agreements.Signed.{mark_agreement_signed, void_agreement}
use fk_cesis_mms.Agreements.Setup.{set_billing_setup}
use fk_cesis_mms.Agreements.Amend.{
  record_minor_amendment, start_material_amendment, discontinue_agreement,
}
use fk_cesis_mms.Agreements.States.{Succeeds, Succeeds-refl, Succeeds-trans}
use fk_cesis_mms.Agreements.Rows.Evolves.{
  IsSound, Evolves, keeps, Evolves-IsSound, Evolves-Succeeds, find-pk,
}
use fk_cesis_mms.Agreements.Effects.Create.{create-Evolves, regenerate-Evolves}
use fk_cesis_mms.Agreements.Effects.Signing.{set_path-Evolves, sign-Evolves, void-Evolves}
use fk_cesis_mms.Agreements.Effects.Sending.{send-Evolves}
use fk_cesis_mms.Agreements.Effects.Others.{sync-Evolves, setup-Evolves, minor-Evolves}
use fk_cesis_mms.Agreements.Effects.Amend.{amend-Evolves}
use fk_cesis_mms.Agreements.Effects.Ends.{discontinue-Evolves}

-- What is done with one stored agreement.
pub data Deed : Type 0 where
  send : Deed
  sign : (actor : Option Actor) → Deed
  void : (reason : Text) → Deed
  choose_path : (path : SigningPath) → Deed
  set_up : (plan : MembershipPlan) (month : Text) → Deed
  amend_minor : (actor : Option Actor) (note : Text) → Deed
  amend_material : (actor : Option Actor) (note : Text) (path : Option SigningPath) → Deed
  discontinue : (actor : Option Actor) (effective_date : Date) (reason : Text) (ids : List ℕ) → Deed

pub data Command : Type 0 where
  create : (member_id : ℕ) (path : SigningPath) → Command
  regenerate : (member_id : ℕ) (path : SigningPath) → Command
  sync : (member_id : Option ℕ) (preference : Option SigningPath) → Command
  handle : (agreement_id : ℕ) (deed : Deed) → Command

module _ (clock : Clock) (setting : Option Text) (nulls_last : Bool) where
  -- The service for a deed.
  unfoldable pub serve : Agreement → Deed → ℕ → Action Agreement
  serve a send now = mark_agreement_sent a now
  serve a (sign actor) now = mark_agreement_signed nulls_last a actor now
  serve a (void reason) now = void_agreement a reason now
  serve a (choose_path path) now = set_signing_path a path
  serve a (set_up plan month) now = set_billing_setup a plan month (clock.local_date now)
  serve a (amend_minor actor note) now = record_minor_amendment a actor note
  serve a (amend_material actor note path) now =
      start_material_amendment clock setting a actor note path now
  serve a (discontinue actor date reason ids) now =
      discontinue_agreement a actor date reason ids now

  -- The database after a command.
  unfoldable pub perform : Command → ℕ → Db → Db
  perform (create member_id path) now db =
      (create_agreement_for_member clock setting member_id path now db).1
  perform (regenerate member_id path) now db =
      (regenerate_agreement clock setting member_id path now db).1
  perform (sync member_id preference) now db =
      (sync_application_signing_path_to_agreement member_id preference db).1
  perform (handle k deed) now db = elim (find_agreement k db.agreements) [
    | none ↦ db
    | some a ↦ (serve a deed now db).1
  ]

  -- The commands, each with its time.
  unfoldable pub run : List (Command × ℕ) → Db → Db
  run [] db = db
  run ((command, now) ∷ rest) db = run rest (perform command now db)

  abbrev pub IsSoundHere : Db → Type 0
  IsSoundHere db = IsSound clock (agreement_number_prefix setting) db

  abbrev EvolvesHere : Db → Db → Type 0
  EvolvesHere = Evolves clock (agreement_number_prefix setting)

  serve-Evolves :
      (a : Agreement) (deed : Deed) (now : ℕ) (db : Db)
      → IsSoundHere db
      → find_agreement a.pk db.agreements ≡ some a
      → EvolvesHere db (serve a deed now db).1
  unfolding serve
  serve-Evolves a send now db sound found =
      send-Evolves clock (agreement_number_prefix setting) a db sound found now
  serve-Evolves a (sign actor) now db sound found =
      sign-Evolves clock (agreement_number_prefix setting) a db sound.0 found nulls_last actor now
  serve-Evolves a (void reason) now db sound found =
      void-Evolves clock (agreement_number_prefix setting) a db sound.0 found reason now
  serve-Evolves a (choose_path path) now db sound found =
      set_path-Evolves clock (agreement_number_prefix setting) a db sound.0 found path
  serve-Evolves a (set_up plan month) now db sound found =
      setup-Evolves clock (agreement_number_prefix setting) a db sound.0 found plan month
        (clock.local_date now)
  serve-Evolves a (amend_minor actor note) now db sound found =
      minor-Evolves clock (agreement_number_prefix setting) a db sound.0 found actor note
  serve-Evolves a (amend_material actor note path) now db sound found =
      amend-Evolves clock setting a db actor note path now sound found
  serve-Evolves a (discontinue actor date reason ids) now db sound found =
      discontinue-Evolves clock (agreement_number_prefix setting) a db sound.0 found actor date
        reason ids now

  key_of : (k : ℕ) (db : Db) (a : Agreement) → find_agreement k db.agreements ≡ some a → a.pk ≡ k
  key_of k db a h =
      let same = find-pk clock (agreement_number_prefix setting) k db.agreements a h in ground arith

  handle-found :
      (k : ℕ) (deed : Deed) (now : ℕ) (db : Db) (a : Agreement)
      → find_agreement k db.agreements ≡ some a
      → perform (handle k deed) now db ≡ (serve a deed now db).1
  unfolding perform
  handle-found k deed now db a h = ground (arith, h)

  handle-missing :
      (k : ℕ) (deed : Deed) (now : ℕ) (db : Db)
      → find_agreement k db.agreements ≡ none
      → perform (handle k deed) now db ≡ db
  unfolding perform
  handle-missing k deed now db h = ground (arith, h)

  perform-Evolves :
      (command : Command) (now : ℕ) (db : Db)
      → IsSoundHere db
      → EvolvesHere db (perform command now db)
  unfolding perform
  perform-Evolves (create member_id path) now db sound =
      create-Evolves clock setting member_id path now db sound
  perform-Evolves (regenerate member_id path) now db sound =
      regenerate-Evolves clock setting member_id path now db sound
  perform-Evolves (sync member_id preference) now db sound =
      sync-Evolves clock (agreement_number_prefix setting) db member_id preference sound.0
  perform-Evolves (handle k deed) now db sound =
      elim (Option-cases (find_agreement k db.agreements)) [
        | inl h ↦ rw (handle-missing k deed now db h) (keeps refl (omega arith))
        | inr (a, h) ↦ rw (handle-found k deed now db a h) (
            serve-Evolves a deed now db sound
              (ap (λ j. find_agreement j db.agreements) (key_of k db a h) ∙ h))
      ]

  -- The calls of the services of agreements, in any order and on whatever rows, keep the stored
  -- agreements sound: keys, numbers and current agreements of a member are unique, a past agreement
  -- is void or superseded, and each number of a year stands on an agreement of that year.
  pub run-IsSound :
      (commands : List (Command × ℕ)) (db : Db) → IsSoundHere db → IsSoundHere (run commands db)
  unfolding run
  run-IsSound [] db sound = sound
  run-IsSound ((command, now) ∷ rest) db sound = run-IsSound rest (perform command now db) (
      Evolves-IsSound clock (agreement_number_prefix setting) (perform-Evolves command now db sound)
        sound)

  -- From sound agreements, a stored agreement is never lost in any run of the services: it keeps
  -- its member, its time of generation and its number, its state only moves on, and it is not made
  -- current again.
  pub run-Succeeds :
      (commands : List (Command × ℕ)) (db : Db) (k : ℕ) (a : Agreement)
      → IsSoundHere db
      → find_agreement k db.agreements ≡ some a
      → (b : Agreement) × (find_agreement k (run commands db).agreements ≡ some b) × Succeeds a b
  unfolding run
  run-Succeeds [] db k a sound h = (a, h, Succeeds-refl a)
  run-Succeeds ((command, now) ∷ rest) db k a sound h =
      let evolves = perform-Evolves command now db sound in
      let (b, h', s) = Evolves-Succeeds clock (agreement_number_prefix setting) evolves k a h in
      let (c, h'', s') =
        run-Succeeds rest (perform command now db) k b
          (Evolves-IsSound clock (agreement_number_prefix setting) evolves sound) h' in
      (c, h'', Succeeds-trans a b c s s')
