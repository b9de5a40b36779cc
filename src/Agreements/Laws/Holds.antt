-- ===== src/Agreements/Laws/Holds.antt =====
-- Which agreement a member holds after a creation or an amendment.
use fk_cesis_mms.Base.{
  ℕ, ◌≡◌, refl, true, false, Option, some, List, [], ◌∷◌, ◌++◌, arith, any, ==_refl,
}
use fk_cesis_mms.Base.Text.{Text}
use fk_cesis_mms.Errors.{Result, ok}
use fk_cesis_mms.Models.{Agreement, SigningPath, Actor, Db, generated, superseded, find_agreement}
use fk_cesis_mms.Billing.Store.{current_agreement}
use fk_cesis_mms.Agreements.Clock.{Clock}
use fk_cesis_mms.Agreements.Number.{agreement_number_prefix, save_agreement}
use fk_cesis_mms.Agreements.Create.{is_void, is_current_of, create_agreement_for_member, archive}
use fk_cesis_mms.Agreements.Amend.{is_signed, path_or}
use fk_cesis_mms.Agreements.Rows.Evolves.{IsSound}
use fk_cesis_mms.Agreements.Rows.Current.{current-none, archived-none}
use fk_cesis_mms.Agreements.Effects.Create.{Creation, found, first, replaced, made, create-Creation}

-- A row that is added is the current one, where there was none.
current-append :
    (m : ℕ) (rows : List Agreement) (new : Agreement)
    → any (is_current_of m) rows ≡ false
    → is_current_of m new ≡ true
    → current_agreement m (rows ++ new ∷ []) ≡ some new
current-append m [] new h is = rw is refl
current-append m (a ∷ rows) new h is =
    let other : is_current_of m a ≡ false = ground arith in
    rw other (current-append m rows new (rw other at h) is)

module _ (clock : Clock) (setting : Option Text) (member_id : ℕ) (path : SigningPath) (now : ℕ)
    (db : Db) (sound : IsSound clock (agreement_number_prefix setting) db) where
  -- The call has returned the agreement that the member holds now, and it is not void.
  abbrev pub Holds : Result Agreement × Db → Type 0
  Holds out =
      (a : Agreement) × (out.0 ≡ ok a)
      × (current_agreement member_id out.1.agreements ≡ some a)
      × (is_void a.state ≡ false)

  Creation-Holds :
      {out : Result Agreement × Db} → Creation clock setting member_id path now db out → Holds out
  Creation-Holds (found a h e) = (a, refl, h, e)
  Creation-Holds (first h) =
      let new = made clock setting member_id path now db in
      (
        new,
        refl,
        current-append member_id db.agreements new (current-none member_id db.agreements h)
            (==_refl member_id),
        refl,
      )
  Creation-Holds (replaced a h e) =
      let db' = save_agreement a.pk archive db in
      let new = made clock setting member_id path now db' in
      (
        new,
        refl,
        current-append member_id db'.agreements new
            (archived-none member_id db.agreements a sound.0 h) (==_refl member_id),
        refl,
      )

  -- From sound agreements, creating an agreement for a member always returns, with the agreement
  -- that the member holds afterwards, and that one is not void.
  pub create-Holds : Holds (create_agreement_for_member clock setting member_id path now db)
  create-Holds = Creation-Holds (create-Creation clock setting member_id path now db sound)

module _ (clock : Clock) (setting : Option Text) (a : Agreement) (db : Db) (actor : Option Actor)
    (note : Text) (path : Option SigningPath) (now : ℕ)
    (sound : IsSound clock (agreement_number_prefix setting) db)
    (stored : find_agreement a.pk db.agreements ≡ some a) (is : is_signed a.state ≡ true) where
  -- The old agreement is kept as superseded, and the member holds a new one that is to be signed,
  -- with the same plan and month.
  abbrev pub IsAmended : Result Agreement × Db → Type 0
  IsAmended out =
      (new : Agreement) × (out.0 ≡ ok new)
      × (find_agreement a.pk out.1.agreements
          ≡ some (record a { state = superseded; is_current = false }))
      × (current_agreement a.member_id out.1.agreements ≡ some new)
      × (new.state ≡ generated)
      × (new.billing_plan_id ≡ a.billing_plan_id)
      × (new.first_billing_month ≡ a.first_billing_month)
      × (new.signing_path ≡ path_or path a.signing_path)
