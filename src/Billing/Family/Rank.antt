-- ===== src/Billing/Family/Rank.antt =====
-- The rank of a member is the number of its family's agreements that were signed before its own.
use fk_cesis_mms.Base.{
  ℕ, suc, ◌+◌, ◌≤◌, ◌<◌, ◌≡◌, ◌≢◌, refl, sym, ap, ◌∙◌, Bool, true, false, some, List, [], ◌∷◌,
  arith, ◌==◌, count_if, if◌then◌else◌, Bool-cases, Option-cases, ◌⊎◌, inl, inr, min, All, ==_refl,
  keep,
}
use mathlib.Core.Path.{subst}
use fk_cesis_mms.Models.{Agreement, Member, Db, find_member}
use fk_cesis_mms.Billing.Calendar.{Date}
use fk_cesis_mms.Billing.Plan.{MembershipPlan}
use fk_cesis_mms.Billing.Family.{
  Candidate, before, ordered, rank_from, family, in_family, joined, compute_family_tier,
}
use fk_cesis_mms.Billing.Family.Order.{
  owner, before_irrefl, before-asym, before_trans, IsDistinct, IsSorted, Among, ordered-IsSorted,
  ordered-IsDistinct, count_if-ordered, Among-ordered, All-Among,
}

none_before :
    (n : Bool) (c : Candidate) (cs : List Candidate)
    → All (λ d. before n c d ≡ true) cs
    → count_if (λ d. before n d c) cs ≡ 0
none_before n c [] h = refl
none_before n c (d ∷ cs) h = rw (before-asym n c d h.0, none_before n c cs h.1)

rank_here :
    (n : Bool) (rank : ℕ) (d : Candidate) (cs : List Candidate)
    → All (λ e. before n d e ≡ true) cs
    → rank_from rank (owner d) (d ∷ cs) ≡ some (rank + count_if (λ e. before n e d) (d ∷ cs))
unfolding rank_from
rank_here n rank d cs h =
    rw (==_refl (owner d), none_before n d cs h) (rw (before_irrefl n d) (ap some (omega arith)))

rank_from-sorted :
    (n : Bool) (rank : ℕ) (c : Candidate) (cs : List Candidate)
    → IsSorted n cs
    → IsDistinct cs
    → Among c cs
    → rank_from rank (owner c) cs ≡ some (rank + count_if (λ d. before n d c) cs)
unfolding rank_from
rank_from-sorted n rank c [] s u h = absurd h
rank_from-sorted n rank c (d ∷ cs) s u (inl now) =
    subst
      (λ x. rank_from rank (owner x) (d ∷ cs) ≡ some (rank + count_if (λ e. before n e x) (d ∷ cs)))
      (sym now) (rank_here n rank d cs s.0)
rank_from-sorted n rank c (d ∷ cs) s u (inr later) =
    let other : (owner d == owner c) ≡ false =
      ground (arith, All-Among (λ e. owner d ≢ owner e) c cs u.0 later) in
    let first = All-Among (λ e. before n d e ≡ true) c cs s.0 later in
    rw (other, first) (rank_from-sorted n (suc rank) c cs s.1 u.1 later ∙ ap some (omega arith))

rank_from-ordered :
    (n : Bool) (c : Candidate) (cs : List Candidate)
    → IsDistinct cs
    → Among c cs
    → rank_from 0 (owner c) (ordered n cs) ≡ some (count_if (λ d. before n d c) cs)
rank_from-ordered n c cs u h =
    rank_from-sorted n 0 c (ordered n cs) (ordered-IsSorted n cs u) (ordered-IsDistinct n cs u)
      (Among-ordered n c cs h)
    ∙ ap some (omega (arith, count_if-ordered n (λ d. before n d c) cs))

-- At most one current agreement for each member (the constraint
-- `one_current_agreement_per_member`).
abbrev pub OneCurrent : List Agreement → Type 0
OneCurrent [] = Unit
OneCurrent (a ∷ rows) =
    All (λ b. a.is_current ≡ true → b.is_current ≡ true → a.member_id ≢ b.member_id) rows
    × OneCurrent rows

family-other :
    (p : Candidate → Bool) (members : List Member) (a : Agreement) (rows : List Agreement)
    → ((c : Candidate) → p c ≡ true → c.0.is_current ≡ true)
    → a.is_current ≡ true
    → All (λ b. a.is_current ≡ true → b.is_current ≡ true → a.member_id ≢ b.member_id) rows
    → All (λ d. a.member_id ≢ owner d) (keep p (joined members rows))
family-other p members a [] current now h = tt
family-other p members a (b ∷ rows) current now h =
    elim (Option-cases (find_member b.member_id members)) [
      | inl absent ↦ rw (absent, All) (family-other p members a rows current now h.1)
      | inr (m, found) ↦ elim (Bool-cases (p (b, m))) [
        | inl kept ↦
            rw (found, kept, All)
              (h.0 now (current (b, m) kept), family-other p members a rows current now h.1)
        | inr dropped ↦ rw (found, dropped, All) (family-other p members a rows current now h.1)
      ]
    ]

joined-IsDistinct :
    (p : Candidate → Bool) (members : List Member) (rows : List Agreement)
    → ((c : Candidate) → p c ≡ true → c.0.is_current ≡ true)
    → OneCurrent rows
    → IsDistinct (keep p (joined members rows))
joined-IsDistinct p members [] current h = tt
joined-IsDistinct p members (a ∷ rows) current h =
    elim (Option-cases (find_member a.member_id members)) [
      | inl absent ↦ rw (absent, IsDistinct) (joined-IsDistinct p members rows current h.1)
      | inr (m, found) ↦ elim (Bool-cases (p (a, m))) [
        | inl kept ↦
            rw (found, kept, IsDistinct)
              (
                family-other p members a rows current (current (a, m) kept) h.0,
                joined-IsDistinct p members rows current h.1,
              )
        | inr dropped ↦
            rw (found, dropped, IsDistinct) (joined-IsDistinct p members rows current h.1)
      ]
    ]

in_family-current :
    (db : Db) (guardian_id : ℕ) (plan : MembershipPlan) (due : Date) (scoped : Bool) (c : Candidate)
    → in_family db guardian_id plan due scoped c ≡ true
    → c.0.is_current ≡ true
in_family-current db guardian_id plan due scoped c h = ground arith

module _ (n : Bool) (db : Db) (member : Member) (plan : MembershipPlan) (due : Date) (scoped : Bool)
    (unique : OneCurrent db.agreements) where
  family-IsDistinct : IsDistinct (family db member.guardian_id plan due scoped)
  family-IsDistinct =
      joined-IsDistinct (in_family db member.guardian_id plan due scoped) db.members db.agreements
        (in_family-current db member.guardian_id plan due scoped) unique

  -- The tier of a member with an agreement in the family is the number of the family's agreements
  -- that come before it, at most 3, where each member has at most one current agreement.
  pub tier-count :
      (c : Candidate)
      → Among c (family db member.guardian_id plan due scoped)
      → c.0.member_id ≡ member.pk
      → compute_family_tier n db member plan due scoped
        ≡ min (count_if (λ d. before n d c) (family db member.guardian_id plan due scoped)) 3
  unfolding compute_family_tier
  tier-count c h own =
      let rank =
        subst
          (λ k.
            rank_from 0 k (ordered n (family db member.guardian_id plan due scoped))
            ≡ some (count_if (λ d. before n d c) (family db member.guardian_id plan due scoped)))
          own
          (rank_from-ordered n c (family db member.guardian_id plan due scoped) family-IsDistinct
            h) in
      rw (rank, compute_family_tier)

bit_mono :
    (p q : Bool) (a b : ℕ)
    → (p ≡ true → q ≡ true)
    → a ≤ b
    → (if p then 1 else 0) + a ≤ (if q then 1 else 0) + b
bit_mono true true a b h k = omega arith
bit_mono true false a b h k = absurd (cc (h refl))
bit_mono false q a b h k = ground arith

bit_mono_strict :
    (p q : Bool) (a b : ℕ)
    → (p ≡ true → q ≡ true)
    → a < b
    → (if p then 1 else 0) + a < (if q then 1 else 0) + b
bit_mono_strict true true a b h k = omega arith
bit_mono_strict true false a b h k = absurd (cc (h refl))
bit_mono_strict false q a b h k = ground arith

bit_new : (q : Bool) (a b : ℕ) → q ≡ true → a ≤ b → 0 + a < (if q then 1 else 0) + b
bit_new true a b h k = omega arith
bit_new false a b h k = absurd (cc h)

count-before :
    (n : Bool) (c d : Candidate) (cs : List Candidate)
    → before n c d ≡ true
    → count_if (λ x. before n x c) cs ≤ count_if (λ x. before n x d) cs
count-before n c d [] h = omega arith
count-before n c d (x ∷ cs) h =
    bit_mono (before n x c) (before n x d) _ _ (λ e. before_trans n x c d e h)
      (count-before n c d cs h)

-- Of two agreements of one family the later one has at least one more before it.
count-before_strict :
    (n : Bool) (c d : Candidate) (cs : List Candidate)
    → before n c d ≡ true
    → Among c cs
    → count_if (λ x. before n x c) cs < count_if (λ x. before n x d) cs
count-before_strict n c d [] h m = absurd m
count-before_strict n c d (x ∷ cs) h (inl now) =
    let first : before n x d ≡ true = subst (λ y. before n y d ≡ true) now h in
    let same : before n x c ≡ false = subst (λ y. before n y c ≡ false) now (before_irrefl n c) in
    rw same (bit_new (before n x d) _ _ first (count-before n c d cs h))
count-before_strict n c d (x ∷ cs) h (inr later) =
    bit_mono_strict (before n x c) (before n x d) _ _ (λ e. before_trans n x c d e h)
      (count-before_strict n c d cs h later)

-- The agreement of `c` was signed earlier than that of `d`, or at the same time and for a member
-- with a lower key.
abbrev pub SignedBefore : Candidate → Candidate → Type 0
SignedBefore (a, m) (b, k) =
    (s : ℕ) × (t : ℕ) × (a.signed_at ≡ some s)
    × (b.signed_at ≡ some t)
    × ((s < t) ⊎ ((s ≡ t) × (a.member_id < b.member_id)))

pub SignedBefore-before : (n : Bool) (c d : Candidate) → SignedBefore c d → before n c d ≡ true
SignedBefore-before n (a, m) (b, k) (s, t, e, f, h) = rw (e, f) (ground (arith, h))

ranks : {t u a b : ℕ} → t ≡ min a 3 → u ≡ min b 3 → a < b → (t < u) ⊎ ((t ≡ 3) × (u ≡ 3))
ranks ht hu h = grind arith

-- Of two members of one family, the one whose agreement was signed later, or at the same time and
-- with a higher key of the member, has a higher tier, or both have tier 3, where each member has at
-- most one current agreement.
pub tier_grows :
    (n : Bool) (db : Db) (first second : Member) (plan : MembershipPlan) (due : Date)
    (scoped : Bool) (c d : Candidate)
    → OneCurrent db.agreements
    → first.guardian_id ≡ second.guardian_id
    → Among c (family db first.guardian_id plan due scoped)
    → Among d (family db second.guardian_id plan due scoped)
    → c.0.member_id ≡ first.pk
    → d.0.member_id ≡ second.pk
    → SignedBefore c d
    → (compute_family_tier n db first plan due scoped
        < compute_family_tier n db second plan due scoped)
      ⊎ ((compute_family_tier n db first plan due scoped ≡ 3)
          × (compute_family_tier n db second plan due scoped ≡ 3))
tier_grows n db first second plan due scoped c d unique same mc md oc od earlier =
    let h = SignedBefore-before n c d earlier in
    let tc = tier-count n db first plan due scoped unique c mc oc in
    let td = tier-count n db second plan due scoped unique d md od in
    let one_family : family db first.guardian_id plan due scoped
        ≡ family db second.guardian_id plan due scoped =
      ap (λ g. family db g plan due scoped) same in
    let fewer =
      subst
        (λ l.
          count_if (λ x. before n x c) (family db first.guardian_id plan due scoped)
          < count_if (λ x. before n x d) l)
        one_family (count-before_strict n c d (family db first.guardian_id plan due scoped) h mc) in
    ranks tc td fewer
