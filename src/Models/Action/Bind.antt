-- ===== src/Models/Action/Bind.antt =====
-- What is known of a call that goes on after another.
use fk_cesis_mms.Base.{◌≡◌, refl, ap}
use fk_cesis_mms.Errors.{Result, ok, err}
use fk_cesis_mms.Models.{Db}
use fk_cesis_mms.Models.Action.{Action, ◌>>=◌}

pub bound :
    {A B : Type 0} (m : Action A) (k : A → Action B) (db : Db) (x : A)
    → (m db).0 ≡ ok x
    → ((m >>= k) db).1 ≡ (k x (m db).1).1
bound {B = B} m k db x h =
    ap (λ r. (elim r as (λ _. Result B × Db) [ ok x ↦ k x (m db).1 | err e ↦ (err e, (m db).1) ]).1)
      h

-- The result of the first of two calls that return.
pub first_value :
    {A B : Type 0} (m : Action A) (k : A → Action B) (db : Db) (b : B)
    → ((m >>= k) db).0 ≡ ok b
    → (x : A) × ((m db).0 ≡ ok x)
      × ((k x (m db).1).0 ≡ ok b)
      × (((m >>= k) db).1 ≡ (k x (m db).1).1)
first_value {A = A} {B = B} m k db b h = go (m db).0 refl h
  where
    go :
        (r : Result A)
        → (m db).0 ≡ r
        → (elim r as (λ _. Result B × Db) [ ok x ↦ k x (m db).1 | err e ↦ (err e, (m db).1) ]).0
          ≡ ok b
        → (x : A) × ((m db).0 ≡ ok x)
          × ((k x (m db).1).0 ≡ ok b)
          × (((m >>= k) db).1 ≡ (k x (m db).1).1)
    go (err e) is h = absurd (cc)
    go (ok x) is h = (x, is, h, bound m k db x is)

-- A call whose first part returns goes on with the second.
pub bind-ok :
    {A B : Type 0} (m : Action A) (k : A → Action B) (db : Db) (x : A) (db' : Db)
    → m db ≡ (ok x, db')
    → (m >>= k) db ≡ k x db'
bind-ok {B = B} m k db x db' h =
    ap (λ out. elim out.0 as (λ _. Result B × Db) [ ok y ↦ k y out.1 | err e ↦ (err e, out.1) ]) h
