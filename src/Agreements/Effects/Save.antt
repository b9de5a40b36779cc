-- ===== src/Agreements/Effects/Save.antt =====
-- A save of a loaded agreement, followed by calls that leave the agreements alone.
use fk_cesis_mms.Base.{
  ℕ, ◌≡◌, refl, sym, true, some, List, [], ◌∷◌, All, ◌==◌, Bool-cases, inl, inr,
}
use mathlib.Core.Path.{subst}
use fk_cesis_mms.Models.{Agreement, Db, find_agreement}
use fk_cesis_mms.Models.Action.{Action}
use fk_cesis_mms.Billing.Reassign.{update_agreement}
use fk_cesis_mms.Agreements.Clock.{Clock}
use fk_cesis_mms.Base.Text.{Text}
use fk_cesis_mms.Agreements.Number.{save_agreement}
use fk_cesis_mms.Agreements.States.{Succeeds}
use fk_cesis_mms.Agreements.Rows.Distinct.{Distinct, Follows, only_row}
use fk_cesis_mms.Agreements.Rows.Evolves.{Evolves, keeps, saves}
use fk_cesis_mms.Agreements.Rows.Quiet.{Quiet}

pub rows-Follows :
    (k : ℕ) (f : Agreement → Agreement) (a : Agreement) (rows : List Agreement)
    → Succeeds a (f a)
    → All (λ b. (b.pk == k) ≡ true → b ≡ a) rows
    → All (Follows k f) rows
rows-Follows k f a [] s h = tt
rows-Follows k f a (b ∷ rows) s (h, hs) =
    ((λ e. subst (λ x. Succeeds x (f x)) (sym (h e)) s), rows-Follows k f a rows s hs)

-- The saved row is found again.
pub find-saved :
    (k : ℕ) (f : Agreement → Agreement) (a : Agreement) (rows : List Agreement)
    → find_agreement k rows ≡ some a
    → (f a).pk ≡ a.pk
    → find_agreement k (update_agreement k f rows) ≡ some (f a)
find-saved k f a [] found p = absurd (cc)
find-saved k f a (b ∷ rows) found p = elim (Bool-cases (b.pk == k)) [
  | inl e ↦ let same : b ≡ a = cc (rw e at found) in rw e (rw (same, p) (rw (← same, e) refl))
  | inr e ↦ rw (e, e) (find-saved k f a rows (rw e at found) p)
]

module _ (clock : Clock) (prefix : Text) where
  pub Quiet-Evolves :
      {A : Type 0} {m : Action A} (db : Db) → Quiet m → Evolves clock prefix db (m db).1
  Quiet-Evolves db h = let (same, more) = h.leaves db in keeps same more

  -- The agreement with the key, and what the save makes of it.
  pub saved-Evolves :
      {A : Type 0} {m : Action A} (db : Db) (k : ℕ) (f : Agreement → Agreement) (a : Agreement)
      → Quiet m
      → Distinct db.agreements
      → find_agreement k db.agreements ≡ some a
      → Succeeds a (f a)
      → Evolves clock prefix db (m (save_agreement k f db)).1
  saved-Evolves db k f a h d found s =
      let (same, more) = h.leaves (save_agreement k f db) in
      saves k f same more (rows-Follows k f a db.agreements s (only_row k db.agreements a d found))
