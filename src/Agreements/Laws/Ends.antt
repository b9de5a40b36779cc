-- ===== src/Agreements/Laws/Ends.antt =====
-- The block of `discontinue_agreement`, and how the call goes on after it.
use fk_cesis_mms.Base.{ℕ, ◌≡◌, refl, ap, ◌∙◌, true, Option, some, List}
use fk_cesis_mms.Base.Text.{Text}
use fk_cesis_mms.Errors.{Error, Result, ok, err}
use fk_cesis_mms.Models.{Agreement, Actor, Member, Db, find_member}
use fk_cesis_mms.Models.Action.{Action, atomic}
use fk_cesis_mms.Billing.Calendar.{Date}
use fk_cesis_mms.Agreements.Signing.{member_of}
use fk_cesis_mms.Agreements.Amend.{is_signed, end_participation, discontinue_agreement}
use fk_cesis_mms.Agreements.Effects.Ends.{announce_end, end_on, discontinue-passed}

module _ (a : Agreement) (actor : Option Actor) (date : Date) (reason : Text) (ids : List ℕ)
    (now : ℕ) (db : Db) where
  -- With the member loaded: the block, and what follows it.
  pub atomic-raises :
      (m : Action (List (ℕ × Text))) (e : Error) → (m db).0 ≡ err e → atomic m db ≡ (err e, db)
  unfolding atomic
  atomic-raises m e h = rw (atomic, h) refl

  pub atomic-returns :
      (m : Action (List (ℕ × Text))) (x : List (ℕ × Text))
      → (m db).0 ≡ ok x
      → atomic m db ≡ (ok x, (m db).1)
  unfolding atomic
  atomic-returns m x h = rw (atomic, h) refl

module _ (a : Agreement) (actor : Option Actor) (date : Date) (reason : Text) (ids : List ℕ)
    (now : ℕ) (db : Db) where
  unfoldable pub block : Member → Action (List (ℕ × Text))
  block member = end_participation a member actor date reason ids now

  -- The call, by how its block ends.
  abbrev pub concluded : Member → Result (List (ℕ × Text)) × Db → Result Agreement × Db
  concluded member out = elim out.0 as (λ _. Result Agreement × Db) [
    | ok actions ↦ announce_end a actor date reason ids now db member actions out.1
    | err e ↦ (err e, out.1)
  ]

  pub loaded :
      (member : Member)
      → is_signed a.state ≡ true
      → find_member a.member_id db.members ≡ some member
      → discontinue_agreement a actor date reason ids now db
        ≡ concluded member (atomic (block member) db)
  unfolding member_of block
  loaded member e found =
      discontinue-passed a actor date reason ids now db e
      ∙ ap
          (λ out. elim out.0 as (λ _. Result Agreement × Db) [
            | ok m ↦ end_on a actor date reason ids now db m out.1
            | err x ↦ (err x, out.1)
          ])
          (load found)
    where
      load : find_member a.member_id db.members ≡ some member → member_of a db ≡ (ok member, db)
      load found = rw found refl
