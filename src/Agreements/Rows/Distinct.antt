-- ===== src/Agreements/Rows/Distinct.antt =====
-- Rows that no uniqueness constraint tells apart in vain: keys, current agreements and numbers.
use fk_cesis_mms.Base.{
  ℕ, ◌≡◌, refl, ◌∙◌, Bool, true, false, ◌&&◌, ◌||◌, Option, none, some, List, [], ◌∷◌, ◌++◌, arith,
  All, ◌==◌, Bool-cases, inl, inr,
}
use mathlib.Core.Path.{subst}
use fk_cesis_mms.Models.{Agreement, find_agreement}
use fk_cesis_mms.Base.Text.{Text}
use fk_cesis_mms.Billing.Reassign.{update_agreement}
use fk_cesis_mms.Billing.Store.Unique.{text_eq_comm}
use fk_cesis_mms.Agreements.Number.{has_number}
use fk_cesis_mms.Agreements.States.{Succeeds}

abbrev pub same_number : Option Text → Option Text → Bool
same_number none other = false
same_number (some number) other = has_number number other

-- The two rows break a constraint: they have one key or one number, or are both the current
-- agreement of one member.
abbrev pub clash : Agreement → Agreement → Bool
clash a b =
    a.pk == b.pk
    || ((a.is_current && (b.is_current && a.member_id == b.member_id))
        || same_number a.agreement_number b.agreement_number)

abbrev pub Distinct : List Agreement → Type 0
Distinct [] = Unit
Distinct (a ∷ rows) = All (λ b. clash a b ≡ false) rows × Distinct rows

same_number_comm : (s t : Option Text) → same_number s t ≡ same_number t s
same_number_comm none none = refl
same_number_comm none (some t) = refl
same_number_comm (some s) none = refl
same_number_comm (some s) (some t) = text_eq_comm s t

clash_comm : (a b : Agreement) → clash a b ≡ clash b a
clash_comm a b = ground (arith, same_number_comm a.agreement_number b.agreement_number)

Succeeds-clash : (a a' b : Agreement) → Succeeds a a' → clash a b ≡ false → clash a' b ≡ false
Succeeds-clash a a' b (p, q, _, r, _, inl s) h = rw (p, q, r, s) h
Succeeds-clash a a' b (p, q, _, r, _, inr (s, _)) h = rw (p, q, r, s) (ground arith)

-- The premise of an update: the row of the key is followed by what `f` makes of it.
abbrev pub Follows : ℕ → (Agreement → Agreement) → Agreement → Type 0
Follows k f a = (a.pk == k) ≡ true → Succeeds a (f a)

clash-update :
    (k : ℕ) (f : Agreement → Agreement) (a : Agreement) (rows : List Agreement)
    → All (Follows k f) rows
    → All (λ b. clash a b ≡ false) rows
    → All (λ b. clash a b ≡ false) (update_agreement k f rows)
clash-update k f a [] follows h = tt
clash-update k f a (b ∷ rows) (follow, follows) (h, hs) = elim (Bool-cases (b.pk == k)) [
  | inr e ↦ rw e (h, clash-update k f a rows follows hs)
  | inl e ↦ rw e (
    clash_comm a (f b) ∙ Succeeds-clash b (f b) a (follow e) (clash_comm b a ∙ h),
    clash-update k f a rows follows hs,
  )
]

All-clash :
    (a a' : Agreement) (rows : List Agreement)
    → Succeeds a a'
    → All (λ b. clash a b ≡ false) rows
    → All (λ b. clash a' b ≡ false) rows
All-clash a a' [] s h = tt
All-clash a a' (b ∷ rows) s (h, hs) = (Succeeds-clash a a' b s h, All-clash a a' rows s hs)

pub update-Distinct :
    (k : ℕ) (f : Agreement → Agreement) (rows : List Agreement)
    → All (Follows k f) rows
    → Distinct rows
    → Distinct (update_agreement k f rows)
update-Distinct k f [] follows d = tt
update-Distinct k f (a ∷ rows) (follow, follows) (h, d) = elim (Bool-cases (a.pk == k)) [
  | inr e ↦ rw e (clash-update k f a rows follows h, update-Distinct k f rows follows d)
  | inl e ↦ rw e (
    clash-update k f (f a) rows follows (All-clash a (f a) rows (follow e) h),
    update-Distinct k f rows follows d,
  )
]

append-All :
    (a new : Agreement) (rows : List Agreement)
    → clash a new ≡ false
    → All (λ b. clash a b ≡ false) rows
    → All (λ b. clash a b ≡ false) (rows ++ new ∷ [])
append-All a new [] h hs = (h, tt)
append-All a new (b ∷ rows) h (k, hs) = (k, append-All a new rows h hs)

pub append-Distinct :
    (new : Agreement) (rows : List Agreement)
    → All (λ a. clash a new ≡ false) rows
    → Distinct rows
    → Distinct (rows ++ new ∷ [])
append-Distinct new [] h d = (tt, tt)
append-Distinct new (a ∷ rows) (h, hs) (c, d) =
    (append-All a new rows h c, append-Distinct new rows hs d)

-- The row of a key is the only one.
other_keys :
    (k : ℕ) (a : Agreement) (rows : List Agreement)
    → (a.pk == k) ≡ true
    → All (λ b. clash a b ≡ false) rows
    → All (λ b. (b.pk == k) ≡ true → b ≡ a) rows
other_keys k a [] e h = tt
other_keys k a (b ∷ rows) e (h, hs) = ((λ same. absurd (ground arith)), other_keys k a rows e hs)

pub only_row :
    (k : ℕ) (rows : List Agreement) (a : Agreement)
    → Distinct rows
    → find_agreement k rows ≡ some a
    → All (λ b. (b.pk == k) ≡ true → b ≡ a) rows
only_row k [] a d found = absurd (cc)
only_row k (b ∷ rows) a (h, d) found = elim (Bool-cases (b.pk == k)) [
  | inl e ↦
      let same : b ≡ a = cc (rw e at found) in
      (
        (λ _. same),
        subst (λ c. All (λ row. (row.pk == k) ≡ true → row ≡ c) rows) same
            (other_keys k b rows e h),
      )
  | inr e ↦ ((λ same. absurd (cc)), only_row k rows a d (rw e at found))
]
