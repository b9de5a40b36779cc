-- ===== src/Agreements/Effects/Create.antt =====
-- `create_agreement_for_member` and `regenerate_agreement`: they end with a current agreement of
-- the member that is not void.
use fk_cesis_mms.Base.{
  ℕ, ◌≡◌, refl, true, false, Option, none, some, arith, any, Bool-cases, Option-cases, inl, inr,
}
use fk_cesis_mms.Base.Text.{Text}
use fk_cesis_mms.Errors.{ok, err, Result, no_agreement, active_agreement}
use fk_cesis_mms.Models.{Agreement, SigningPath, Db}
use fk_cesis_mms.Models.Action.{◌>>=◌, Action, atomic}
use fk_cesis_mms.Billing.Store.{current_agreement}
use fk_cesis_mms.Agreements.Clock.{Clock}
use fk_cesis_mms.Agreements.Number.{
  agreement_number_prefix, save_agreement, assign_agreement_number,
}
use fk_cesis_mms.Agreements.Create.{
  default_setup, is_void, is_current_of, archive, add_agreement, insert_agreement, create_fresh,
  create_agreement_for_member, regenerate_agreement,
}
use fk_cesis_mms.Agreements.States.{Succeeds, later_refl}
use fk_cesis_mms.Agreements.Rows.Distinct.{only_row}
use fk_cesis_mms.Agreements.Rows.Evolves.{IsSound, Evolves, keeps, saves, steps, Evolves-IsSound}
use fk_cesis_mms.Agreements.Rows.Current.{current-none, current-stored, archived-none}
use fk_cesis_mms.Agreements.Effects.Save.{rows-Follows}
use fk_cesis_mms.Agreements.Effects.Fresh.{fresh_agreement, fresh_lem, fresh-Evolves}

module _ (clock : Clock) (setting : Option Text) (member_id : ℕ) (path : SigningPath)
    (now : ℕ) where
  abbrev prefix : Text
  prefix = agreement_number_prefix setting

  -- The agreement that is made where the member has no current one.
  abbrev pub made : Db → Agreement
  made db =
      let (plan_id, month) = default_setup db.plans (clock.local_date now) in
      fresh_agreement clock setting member_id path now plan_id month db

  atomic-ok :
      (m : Action Agreement) (db : Db) (a : Agreement) (db' : Db)
      → m db ≡ (ok a, db')
      → atomic m db ≡ (ok a, db')
  unfolding atomic
  atomic-ok m db a db' h = cc h

  create_fresh_lem :
      (db : Db)
      → IsSound clock prefix db
      → any (is_current_of member_id) db.agreements ≡ false
      → create_fresh clock setting member_id path now db
        ≡ (ok (made db), add_agreement (made db) db)
  unfolding create_fresh
  create_fresh_lem db sound none_current =
      let (plan_id, month) = default_setup db.plans (clock.local_date now) in
      atomic-ok
        (insert_agreement member_id path now plan_id month
          >>= assign_agreement_number clock setting)
        db (made db) (add_agreement (made db) db)
        (fresh_lem clock setting member_id path now plan_id month db sound none_current)

  -- How a creation ends: the agreement that the member has and that is not void is returned, or a
  -- new one is added, once a void one is archived.
  pub data Creation (db : Db) : Result Agreement × Db → Type 0 where
    found :
        (a : Agreement)
        → current_agreement member_id db.agreements ≡ some a
        → is_void a.state ≡ false
        → Creation db (ok a, db)
    first :
        current_agreement member_id db.agreements ≡ none
        → Creation db (ok (made db), add_agreement (made db) db)
    replaced :
        (a : Agreement)
        → current_agreement member_id db.agreements ≡ some a
        → is_void a.state ≡ true
        → Creation db (
          ok (made (save_agreement a.pk archive db)),
          add_agreement (made (save_agreement a.pk archive db)) (save_agreement a.pk archive db),
        )

  module _ (db : Db) (sound : IsSound clock prefix db) where
    archive-Evolves :
        (a : Agreement)
        → current_agreement member_id db.agreements ≡ some a
        → is_void a.state ≡ true
        → Evolves clock prefix db (save_agreement a.pk archive db)
    archive-Evolves a current e =
        let stored = current-stored member_id db.agreements a sound.0 current in
        let closed : Succeeds a (archive a) =
          (refl, refl, refl, refl, later_refl a.state, inr (refl, ground arith)) in
        saves a.pk archive refl (omega arith) (
          rows-Follows a.pk archive a db.agreements closed
            (only_row a.pk db.agreements a sound.0 stored))

    create-first :
        current_agreement member_id db.agreements ≡ none
        → create_agreement_for_member clock setting member_id path now db
          ≡ create_fresh clock setting member_id path now db
    unfolding create_agreement_for_member
    create-first h = ground (arith, h)

    create-found :
        (a : Agreement)
        → current_agreement member_id db.agreements ≡ some a
        → is_void a.state ≡ false
        → create_agreement_for_member clock setting member_id path now db ≡ (ok a, db)
    unfolding create_agreement_for_member
    create-found a h e = ground (arith, h, e)

    create-replaced :
        (a : Agreement)
        → current_agreement member_id db.agreements ≡ some a
        → is_void a.state ≡ true
        → create_agreement_for_member clock setting member_id path now db
          ≡ create_fresh clock setting member_id path now (save_agreement a.pk archive db)
    unfolding create_agreement_for_member
    create-replaced a h e = ground (arith, h, e)

    pub create-Creation :
        Creation db (create_agreement_for_member clock setting member_id path now db)
    create-Creation = elim (Option-cases (current_agreement member_id db.agreements)) [
      | inl h ↦
          rw (create-first h, create_fresh_lem db sound (current-none member_id db.agreements h))
            (first h)
      | inr (a, h) ↦ elim (Bool-cases (is_void a.state)) [
        | inr e ↦ rw (create-found a h e) (found a h e)
        | inl e ↦
            let db' = save_agreement a.pk archive db in
            rw
              (
                create-replaced a h e,
                create_fresh_lem db' (Evolves-IsSound clock prefix (archive-Evolves a h e) sound)
                    (archived-none member_id db.agreements a sound.0 h),
              )
              (replaced a h e)
      ]
    ]

    made-Evolves :
        {db' : Db}
        → IsSound clock prefix db'
        → any (is_current_of member_id) db'.agreements ≡ false
        → Evolves clock prefix db' (add_agreement (made db') db')
    made-Evolves {db' = db'} sound' none_current =
        let (plan_id, month) = default_setup db'.plans (clock.local_date now) in
        fresh-Evolves clock setting member_id path now plan_id month db' sound' none_current

    Creation-Evolves :
        {out : Result Agreement × Db} → Creation db out → Evolves clock prefix db out.1
    Creation-Evolves (found a h e) = keeps refl (omega arith)
    Creation-Evolves (first h) = made-Evolves sound (current-none member_id db.agreements h)
    Creation-Evolves (replaced a h e) = steps (archive-Evolves a h e) (
        made-Evolves (Evolves-IsSound clock prefix (archive-Evolves a h e) sound)
          (archived-none member_id db.agreements a sound.0 h))

    pub create-Evolves :
        Evolves clock prefix db (create_agreement_for_member clock setting member_id path now db).1
    create-Evolves = Creation-Evolves create-Creation

    regenerate-none :
        current_agreement member_id db.agreements ≡ none
        → regenerate_agreement clock setting member_id path now db ≡ (err no_agreement, db)
    unfolding regenerate_agreement
    regenerate-none h = ground arith

    regenerate-active :
        (a : Agreement)
        → current_agreement member_id db.agreements ≡ some a
        → is_void a.state ≡ false
        → regenerate_agreement clock setting member_id path now db ≡ (err active_agreement, db)
    unfolding regenerate_agreement
    regenerate-active a h e = ground arith

    regenerate-void :
        (a : Agreement)
        → current_agreement member_id db.agreements ≡ some a
        → is_void a.state ≡ true
        → regenerate_agreement clock setting member_id path now db
          ≡ create_agreement_for_member clock setting member_id path now db
    unfolding regenerate_agreement
    regenerate-void a h e = rw (h, e) refl

    pub regenerate-Evolves :
        Evolves clock prefix db (regenerate_agreement clock setting member_id path now db).1
    regenerate-Evolves = elim (Option-cases (current_agreement member_id db.agreements)) [
      | inl h ↦ rw (regenerate-none h) (keeps refl (omega arith))
      | inr (a, h) ↦ elim (Bool-cases (is_void a.state)) [
        | inr e ↦ rw (regenerate-active a h e) (keeps refl (omega arith))
        | inl e ↦ rw (regenerate-void a h e) create-Evolves
      ]
    ]
