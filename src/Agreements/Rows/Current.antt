-- ===== src/Agreements/Rows/Current.antt =====
-- The current agreement of a member among rows that the constraints allow.
use fk_cesis_mms.Base.{
  ℕ, ◌≡◌, refl, true, false, none, some, List, [], ◌∷◌, arith, any, All, ◌==◌, Bool-cases, inl, inr,
  ==_refl,
}
use mathlib.Core.Path.{subst}
use fk_cesis_mms.Models.{Agreement, find_agreement}
use fk_cesis_mms.Billing.Reassign.{update_agreement}
use fk_cesis_mms.Billing.Store.{current_agreement}
use fk_cesis_mms.Agreements.Create.{is_current_of, archive}
use fk_cesis_mms.Agreements.Rows.Distinct.{clash, Distinct}

pub current-none :
    (m : ℕ) (rows : List Agreement)
    → current_agreement m rows ≡ none
    → any (is_current_of m) rows ≡ false
current-none m [] h = refl
current-none m (a ∷ rows) h = elim (Bool-cases (is_current_of m a)) [
  | inl e ↦ absurd (cc (rw e at h))
  | inr e ↦ rw (e, current-none m rows (rw e at h)) refl
]

pub current-is_current :
    (m : ℕ) (rows : List Agreement) (a : Agreement)
    → current_agreement m rows ≡ some a
    → is_current_of m a ≡ true
current-is_current m [] a h = absurd (cc)
current-is_current m (b ∷ rows) a h = elim (Bool-cases (is_current_of m b)) [
  | inl e ↦ let same : b ≡ a = cc (rw e at h) in rw (← same) e
  | inr e ↦ current-is_current m rows a (rw e at h)
]

All-current :
    (P : Agreement → Type 0) (m : ℕ) (rows : List Agreement) (a : Agreement)
    → All P rows
    → current_agreement m rows ≡ some a
    → P a
All-current P m [] a ps h = absurd (cc)
All-current P m (b ∷ rows) a (p, ps) h = elim (Bool-cases (is_current_of m b)) [
  | inl e ↦ let same : b ≡ a = cc (rw e at h) in subst P same p
  | inr e ↦ All-current P m rows a ps (rw e at h)
]

-- The current agreement is the row of its key.
pub current-stored :
    (m : ℕ) (rows : List Agreement) (a : Agreement)
    → Distinct rows
    → current_agreement m rows ≡ some a
    → find_agreement a.pk rows ≡ some a
current-stored m [] a d h = absurd (cc)
current-stored m (b ∷ rows) a (c, d) h = elim (Bool-cases (is_current_of m b)) [
  | inl e ↦
      let same : b ≡ a = cc (rw e at h) in
      subst (λ x. find_agreement x.pk (b ∷ rows) ≡ some x) same (rw (==_refl b.pk) refl)
  | inr e ↦
      let apart : clash b a ≡ false = All-current (λ x. clash b x ≡ false) m rows a c (rw e at h) in
      let miss : (b.pk == a.pk) ≡ false = ground arith in
      rw miss (current-stored m rows a d (rw e at h))
]

pub found-All :
    (P : Agreement → Type 0) (k : ℕ) (rows : List Agreement) (a : Agreement)
    → All P rows
    → find_agreement k rows ≡ some a
    → P a
found-All P k [] a ps h = absurd (cc)
found-All P k (b ∷ rows) a (p, ps) h = elim (Bool-cases (b.pk == k)) [
  | inl e ↦ let same : b ≡ a = cc (rw e at h) in subst P same p
  | inr e ↦ found-All P k rows a ps (rw e at h)
]

module _ (m k : ℕ) (f : Agreement → Agreement)
    (past : (b : Agreement) → is_current_of m (f b) ≡ false) where
  others-retired :
      (a : Agreement) (rows : List Agreement)
      → is_current_of m a ≡ true
      → All (λ b. clash a b ≡ false) rows
      → any (is_current_of m) (update_agreement k f rows) ≡ false
  others-retired a [] h c = refl
  others-retired a (b ∷ rows) h (c, cs) =
      let rest = others-retired a rows h cs in
      let other : is_current_of m b ≡ false = ground arith in
      elim (Bool-cases (b.pk == k)) [
        | inl e ↦ rw (e, past b, rest) refl
        | inr e ↦ rw (e, other, rest) refl
      ]

  -- Once its current agreement is a past one, the member has none.
  pub retired-none :
      (rows : List Agreement) (a : Agreement)
      → Distinct rows
      → find_agreement k rows ≡ some a
      → is_current_of m a ≡ true
      → any (is_current_of m) (update_agreement k f rows) ≡ false
  retired-none [] a d h current = refl
  retired-none (b ∷ rows) a (c, d) h current = elim (Bool-cases (b.pk == k)) [
    | inl e ↦
        let same : b ≡ a = cc (rw e at h) in
        rw (e, past b) (others-retired b rows (rw same current) c)
    | inr e ↦
        let apart : clash b a ≡ false = found-All (λ x. clash b x ≡ false) k rows a c (rw e at h) in
        let other : is_current_of m b ≡ false = ground arith in
        rw (e, other) (retired-none rows a d (rw e at h) current)
  ]

-- Once its current agreement is archived, the member has none.
pub archived-none :
    (m : ℕ) (rows : List Agreement) (a : Agreement)
    → Distinct rows
    → current_agreement m rows ≡ some a
    → any (is_current_of m) (update_agreement a.pk archive rows) ≡ false
archived-none m rows a d h =
    retired-none m a.pk archive (λ b. refl) rows a d (current-stored m rows a d h)
      (current-is_current m rows a h)
