-- ===== src/Models/Action.antt =====
-- A service call: it reads and writes the database, and returns or raises. What was written before
-- a raise stays, unless the call stands in `transaction.atomic()`.
pub mod Bind
use fk_cesis_mms.Base.{Bool, Option, none, some, if◌then◌else◌, ◌≡◌}
use fk_cesis_mms.Errors.{Error, Result, ok, err}
use fk_cesis_mms.Models.{Db}

abbrev pub Action {ℓ} : Type ℓ → Type ℓ
Action A = Db → Result A × Db

infixl 5 ◌>>=◌ ◌>>◌
abbrev pub ◌>>=◌ : {A B : Type 0} → Action A → (A → Action B) → Action B
◌>>=◌ m f db = let (r, db') = m db in elim r [ ok a ↦ f a db' | err e ↦ (err e, db') ]

abbrev pub ◌>>◌ : {B : Type 0} → Action (Unit {0}) → Action B → Action B
m >> k = m >>= λ _. k

module _ {A : Type 0} where
  abbrev pub pure : A → Action A
  pure a db = (ok a, db)

  abbrev pub raise : Error → Action A
  raise e db = (err e, db)

  abbrev pub gets : (Db → A) → Action A
  gets f db = (ok (f db), db)

  -- A call that touches no row.
  abbrev pub lift : Result A → Action A
  lift r db = (r, db)

  abbrev pub or_raise : Option A → Error → Action A
  or_raise none e db = (err e, db)
  or_raise (some a) e db = (ok a, db)

  -- `with transaction.atomic(): ...`
  unfoldable pub atomic : Action A → Action A
  atomic m db = let (r, db') = m db in elim r [ ok a ↦ (ok a, db') | err e ↦ (err e, db) ]

abbrev pub raise_if : Bool → Error → Action (Unit {0})
raise_if c e db = (if c then err e else ok tt, db)

abbrev pub modify : (Db → Db) → Action (Unit {0})
modify f db = (ok tt, f db)

-- A call that raises has changed nothing.
abbrev pub Unchanged : {A : Type 0} → Db → Result A × Db → Type 0
Unchanged db (ok a, db') = Unit
Unchanged db (err e, db') = db' ≡ db
