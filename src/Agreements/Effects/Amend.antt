-- ===== src/Agreements/Effects/Amend.antt =====
-- `start_material_amendment`, on every branch: a signed agreement is current, so that nothing
-- refuses the new one.
use fk_cesis_mms.Base.{
  ℕ, ◌≡◌, refl, ◌∙◌, true, false, Option, some, arith, any, ==_refl, Bool-cases, inl, inr,
}
use fk_cesis_mms.Base.Text.{Text}
use fk_cesis_mms.Errors.{ok, err, material_needs_signed}
use fk_cesis_mms.Models.{
  Agreement, SigningPath, Actor, Db, find_agreement, agreement_material_amendment_started,
  agreement_superseded, material_amendment_started, superseded_by_new,
}
use fk_cesis_mms.Models.Action.{◌>>=◌, ◌>>◌, Action, atomic, modify, pure}
use fk_cesis_mms.Billing.Store.{add_audit}
use fk_cesis_mms.Agreements.Clock.{Clock}
use fk_cesis_mms.Agreements.Number.{
  agreement_number_prefix, save_agreement, assign_agreement_number,
}
use fk_cesis_mms.Agreements.Create.{is_current_of, add_agreement, insert_agreement}
use fk_cesis_mms.Agreements.Amend.{
  is_signed, add_event, note_event, as_superseded, path_or, supersede, start_material_amendment,
}
use fk_cesis_mms.Agreements.States.{Succeeds}
use fk_cesis_mms.Agreements.Rows.Distinct.{only_row}
use fk_cesis_mms.Agreements.Rows.Evolves.{
  IsSound, IsFit, Evolves, keeps, saves, steps, Evolves-IsSound,
}
use fk_cesis_mms.Agreements.Rows.Current.{found-All, retired-none}
use fk_cesis_mms.Agreements.Rows.Quiet.{>>=-Quiet, finally-Quiet, add_audit-Quiet}
use fk_cesis_mms.Agreements.Effects.Save.{rows-Follows, Quiet-Evolves}
use fk_cesis_mms.Agreements.Effects.Fresh.{fresh_agreement, fresh_lem, fresh-Evolves}

module _ (clock : Clock) (setting : Option Text) (a : Agreement) (db : Db) (actor : Option Actor)
    (note : Text) (path : SigningPath) (now : ℕ) where
  abbrev prefix : Text
  prefix = agreement_number_prefix setting

  -- The database after the old agreement was superseded.
  abbrev pub superseded_db : Db
  superseded_db = add_event (note_event a.pk superseded_by_new note actor) (
      add_event (note_event a.pk material_amendment_started note actor)
        (save_agreement a.pk as_superseded db))

  -- The agreement that follows the old one.
  abbrev pub successor : Agreement
  successor =
      fresh_agreement clock setting a.member_id path now a.billing_plan_id a.first_billing_month
        superseded_db

  supersede-insert :
      supersede clock setting a actor note path now db
      ≡ (insert_agreement a.member_id path now a.billing_plan_id a.first_billing_month
            >>= assign_agreement_number clock setting)
          superseded_db
  unfolding supersede
  supersede-insert = refl

  module _ (sound : IsSound clock prefix db) (found : find_agreement a.pk db.agreements ≡ some a)
      (is : is_signed a.state ≡ true) where
    signed-is_current : is_current_of a.member_id a ≡ true
    signed-is_current =
        let (_, settled, _) =
          found-All (IsFit clock prefix db.next_pk) a.pk db.agreements a sound.1 found in
        elim (Bool-cases a.is_current) [
          | inl e ↦ rw (e, ==_refl a.member_id) refl
          | inr e ↦ let closed = settled e in absurd (ground (arith, is, closed))
        ]

    superseded-Evolves : Evolves clock prefix db superseded_db
    superseded-Evolves =
        let s : Succeeds a (as_superseded a) =
          (refl, refl, refl, refl, ground (arith, is), inr (refl, refl)) in
        saves a.pk as_superseded refl (omega arith) (
          rows-Follows a.pk as_superseded a db.agreements s
            (only_row a.pk db.agreements a sound.0 found))

    pub superseded-none : any (is_current_of a.member_id) superseded_db.agreements ≡ false
    superseded-none =
        retired-none a.member_id a.pk as_superseded (λ b. refl) db.agreements a sound.0 found
          signed-is_current

    pub supersede_lem :
        supersede clock setting a actor note path now db
        ≡ (ok successor, add_agreement successor superseded_db)
    supersede_lem =
        supersede-insert
        ∙ fresh_lem clock setting a.member_id path now a.billing_plan_id a.first_billing_month
            superseded_db (Evolves-IsSound clock prefix superseded-Evolves sound) superseded-none

    pub supersede-Evolves : Evolves clock prefix db (add_agreement successor superseded_db)
    supersede-Evolves = steps superseded-Evolves (
        fresh-Evolves clock setting a.member_id path now a.billing_plan_id a.first_billing_month
          superseded_db (Evolves-IsSound clock prefix superseded-Evolves sound) superseded-none)

module _ (clock : Clock) (setting : Option Text) (a : Agreement) (db : Db) (actor : Option Actor)
    (note : Text) (path : Option SigningPath) (now : ℕ) where
  amend-refused :
      is_signed a.state ≡ false
      → start_material_amendment clock setting a actor note path now db
        ≡ (err material_needs_signed, db)
  unfolding start_material_amendment
  amend-refused e = ground arith

  -- The audit rows of an amendment.
  abbrev audited : Agreement → Action Agreement
  audited new =
      modify (add_audit (agreement_material_amendment_started a.pk note new.pk))
      >> (modify (add_audit (agreement_superseded a.pk note new.pk)) >> pure new)

  amend-passed :
      (new : Agreement) (db' : Db)
      → is_signed a.state ≡ true
      → supersede clock setting a actor note (path_or path a.signing_path) now db ≡ (ok new, db')
      → start_material_amendment clock setting a actor note path now db ≡ audited new db'
  unfolding start_material_amendment atomic
  amend-passed new db' e h = ground (arith, e, h)

  -- An amendment of a signed agreement returns its successor.
  pub amend_lem :
      IsSound clock (agreement_number_prefix setting) db
      → find_agreement a.pk db.agreements ≡ some a
      → is_signed a.state ≡ true
      → let new = successor clock setting a db actor note (path_or path a.signing_path) now in
        start_material_amendment clock setting a actor note path now db
        ≡ audited new (
            add_agreement new
              (superseded_db clock setting a db actor note (path_or path a.signing_path) now))
  amend_lem sound found e =
      let q = path_or path a.signing_path in
      let new = successor clock setting a db actor note q now in
      amend-passed new (add_agreement new (superseded_db clock setting a db actor note q now)) e
        (supersede_lem clock setting a db actor note q now sound found e)

  pub amend-Evolves :
      IsSound clock (agreement_number_prefix setting) db
      → find_agreement a.pk db.agreements ≡ some a
      → Evolves clock
          (agreement_number_prefix setting)
          db
          (start_material_amendment clock setting a actor note path now db).1
  amend-Evolves sound found = elim (Bool-cases (is_signed a.state)) [
    | inr e ↦ rw (amend-refused e) (keeps refl (omega arith))
    | inl e ↦
        let q = path_or path a.signing_path in
        let new = successor clock setting a db actor note q now in
        rw (amend_lem sound found e) (
          steps (supersede-Evolves clock setting a db actor note q now sound found e) (
            Quiet-Evolves clock (agreement_number_prefix setting)
              (add_agreement new (superseded_db clock setting a db actor note q now))
              (>>=-Quiet (add_audit-Quiet (agreement_material_amendment_started a.pk note new.pk))
                (λ _.
                  finally-Quiet new (add_audit-Quiet (agreement_superseded a.pk note new.pk))))))
  ]
