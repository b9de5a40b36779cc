-- ===== src/Agreements/States.antt =====
-- The order of an agreement's states in apps/agreements/services.py, and what a call may change in
-- a row.
use fk_cesis_mms.Base.{Bool, true, false, ◌≡◌, refl, ◌∙◌, ◌⊎◌, inl, inr, arith}
use fk_cesis_mms.Models.{
  Agreement, AgreementState, generated, sent, signed, void, superseded, discontinued,
}

-- `later s t`: an agreement that was in state `s` may be in state `t`. Nothing leaves `void`, a
-- signed agreement is neither sent nor generated again, and of two ends only voiding follows.
abbrev pub later : AgreementState → AgreementState → Bool
later generated t = true
later sent generated = false
later sent t = true
later signed generated = false
later signed sent = false
later signed t = true
later superseded superseded = true
later superseded void = true
later superseded t = false
later discontinued discontinued = true
later discontinued void = true
later discontinued t = false
later void void = true
later void t = false

-- The states in which an agreement may be a past one.
abbrev pub is_closed : AgreementState → Bool
is_closed void = true
is_closed superseded = true
is_closed _ = false

pub later_refl : (s : AgreementState) → later s s ≡ true
later_refl s = ground arith

pub later_trans : (s t u : AgreementState) → later s t ≡ true → later t u ≡ true → later s u ≡ true
later_trans s t u h k = ground arith

closed-later : (s t : AgreementState) → is_closed s ≡ true → later s t ≡ true → is_closed t ≡ true
closed-later s t h k = ground arith

-- The row is current as before, or is a past one in a state that allows it.
abbrev pub Retires : Agreement → Agreement → Type 0
Retires a b = (b.is_current ≡ a.is_current) ⊎ ((b.is_current ≡ false) × (is_closed b.state ≡ true))

-- `b` is the row of `a` after some calls: the same member, time of generation and number, a later
-- state, and not current anew.
abbrev pub Succeeds : Agreement → Agreement → Type 0
Succeeds a b =
    (b.pk ≡ a.pk)
    × (b.member_id ≡ a.member_id)
    × (b.generated_at ≡ a.generated_at)
    × (b.agreement_number ≡ a.agreement_number)
    × (later a.state b.state ≡ true)
    × Retires a b

pub Succeeds-refl : (a : Agreement) → Succeeds a a
Succeeds-refl a = (refl, refl, refl, refl, later_refl a.state, inl refl)

Retires-trans :
    (a b c : Agreement) → later b.state c.state ≡ true → Retires a b → Retires b c → Retires a c
Retires-trans a b c l h (inr k) = inr k
Retires-trans a b c l (inl h) (inl k) = inl (k ∙ h)
Retires-trans a b c l (inr (h, closed)) (inl k) = inr (k ∙ h, closed-later b.state c.state closed l)

pub Succeeds-trans : (a b c : Agreement) → Succeeds a b → Succeeds b c → Succeeds a c
Succeeds-trans a b c (p, q, r, s, t, u) (p', q', r', s', t', u') = (
  p' ∙ p,
  q' ∙ q,
  r' ∙ r,
  s' ∙ s,
  later_trans a.state b.state c.state t t',
  Retires-trans a b c t' u u',
)

-- A past agreement is void or superseded.
abbrev pub IsSettled : Agreement → Type 0
IsSettled a = a.is_current ≡ false → is_closed a.state ≡ true

pub Succeeds-IsSettled : (a b : Agreement) → Succeeds a b → IsSettled a → IsSettled b
Succeeds-IsSettled a b (_, _, _, _, l, inr (_, closed)) settled past = closed
Succeeds-IsSettled a b (_, _, _, _, l, inl same) settled past =
    closed-later a.state b.state (settled (cc)) l
