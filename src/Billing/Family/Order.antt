-- ===== src/Billing/Family/Order.antt =====
-- The order of the family's agreements, and the sort of them.
use fk_cesis_mms.Base.{
  ℕ, ◌≡◌, ◌≢◌, refl, sym, Bool, true, false, List, [], ◌∷◌, arith, count_if, Bool-cases, ◌⊎◌, inl,
  inr, All,
}
use fk_cesis_mms.Billing.Family.{Candidate, before, insert_by, ordered}

-- The key of a candidate's member.
abbrev pub owner : Candidate → ℕ
owner (a, m) = a.member_id

pub before_irrefl : (n : Bool) (c : Candidate) → before n c c ≡ false
before_irrefl n c = ground arith

pub before-asym : (n : Bool) (c d : Candidate) → before n c d ≡ true → before n d c ≡ false
before-asym n c d h = ground arith

pub before_trans :
    (n : Bool) (c d e : Candidate) → before n c d ≡ true → before n d e ≡ true → before n c e ≡ true
before_trans n c d e h k = ground arith

before-total :
    (n : Bool) (c d : Candidate) → owner c ≢ owner d → before n c d ≡ false → before n d c ≡ true
before-total n c d h k = ground arith

-- No member twice, and the order of the query.
abbrev pub IsDistinct : List Candidate → Type 0
IsDistinct [] = Unit
IsDistinct (c ∷ cs) = All (λ d. owner c ≢ owner d) cs × IsDistinct cs

abbrev pub IsSorted : Bool → List Candidate → Type 0
IsSorted n [] = Unit
IsSorted n (c ∷ cs) = All (λ d. before n c d ≡ true) cs × IsSorted n cs

abbrev pub Among : Candidate → List Candidate → Type 0
Among c [] = ⊥
Among c (d ∷ ds) = (c ≡ d) ⊎ Among c ds

All-insert_by :
    (n : Bool) (P : Candidate → Type 0) (c : Candidate) (cs : List Candidate)
    → P c
    → All P cs
    → All P (insert_by n c cs)
unfolding insert_by
All-insert_by n P c [] h hs = (h, tt)
All-insert_by n P c (d ∷ cs) h hs = elim (Bool-cases (before n d c)) [
  | inl first ↦ rw first (hs.0, All-insert_by n P c cs h hs.1)
  | inr last ↦ rw last (h, hs)
]

All-ordered :
    (n : Bool) (P : Candidate → Type 0) (cs : List Candidate) → All P cs → All P (ordered n cs)
unfolding ordered
All-ordered n P [] h = tt
All-ordered n P (c ∷ cs) h = All-insert_by n P c (ordered n cs) h.0 (All-ordered n P cs h.1)

All-before :
    (n : Bool) (c d : Candidate) (cs : List Candidate)
    → before n c d ≡ true
    → All (λ e. before n d e ≡ true) cs
    → All (λ e. before n c e ≡ true) cs
All-before n c d [] h hs = tt
All-before n c d (e ∷ cs) h hs = (before_trans n c d e h hs.0, All-before n c d cs h hs.1)

insert_by-IsSorted :
    (n : Bool) (c : Candidate) (cs : List Candidate)
    → All (λ d. owner c ≢ owner d) cs
    → IsSorted n cs
    → IsSorted n (insert_by n c cs)
unfolding insert_by
insert_by-IsSorted n c [] new s = (tt, tt)
insert_by-IsSorted n c (d ∷ cs) new s = elim (Bool-cases (before n d c)) [
  | inl first ↦ rw first (
    All-insert_by n (λ e. before n d e ≡ true) c cs first s.0,
    insert_by-IsSorted n c cs new.1 s.1,
  )
  | inr last ↦
      let now = before-total n d c (λ e. new.0 (sym e)) last in
      rw last ((now, All-before n c d cs now s.0), s)
]

pub ordered-IsSorted : (n : Bool) (cs : List Candidate) → IsDistinct cs → IsSorted n (ordered n cs)
unfolding ordered
ordered-IsSorted n [] h = tt
ordered-IsSorted n (c ∷ cs) h =
    insert_by-IsSorted n c (ordered n cs) (All-ordered n (λ d. owner c ≢ owner d) cs h.0)
      (ordered-IsSorted n cs h.1)

insert_by-IsDistinct :
    (n : Bool) (c : Candidate) (cs : List Candidate)
    → All (λ d. owner c ≢ owner d) cs
    → IsDistinct cs
    → IsDistinct (insert_by n c cs)
unfolding insert_by
insert_by-IsDistinct n c [] new s = (tt, tt)
insert_by-IsDistinct n c (d ∷ cs) new s = elim (Bool-cases (before n d c)) [
  | inl first ↦ rw first (
    All-insert_by n (λ e. owner d ≢ owner e) c cs (λ e. new.0 (sym e)) s.0,
    insert_by-IsDistinct n c cs new.1 s.1,
  )
  | inr last ↦ rw last (new, s)
]

pub ordered-IsDistinct :
    (n : Bool) (cs : List Candidate) → IsDistinct cs → IsDistinct (ordered n cs)
unfolding ordered
ordered-IsDistinct n [] h = tt
ordered-IsDistinct n (c ∷ cs) h =
    insert_by-IsDistinct n c (ordered n cs) (All-ordered n (λ d. owner c ≢ owner d) cs h.0)
      (ordered-IsDistinct n cs h.1)

count_if-insert_by :
    (n : Bool) (p : Candidate → Bool) (c : Candidate) (cs : List Candidate)
    → count_if p (insert_by n c cs) ≡ count_if p (c ∷ cs)
unfolding insert_by
count_if-insert_by n p c [] = refl
count_if-insert_by n p c (d ∷ cs) = elim (Bool-cases (before n d c)) [
  | inl first ↦ rw first (omega (arith, count_if-insert_by n p c cs))
  | inr last ↦ rw last
]

pub count_if-ordered :
    (n : Bool) (p : Candidate → Bool) (cs : List Candidate)
    → count_if p (ordered n cs) ≡ count_if p cs
unfolding ordered
count_if-ordered n p [] = refl
count_if-ordered n p (c ∷ cs) =
    omega (arith, count_if-insert_by n p c (ordered n cs), count_if-ordered n p cs)

Among-insert_by :
    (n : Bool) (x c : Candidate) (cs : List Candidate)
    → Among x (c ∷ cs)
    → Among x (insert_by n c cs)
unfolding insert_by
Among-insert_by n x c [] h = h
Among-insert_by n x c (d ∷ cs) h = elim (Bool-cases (before n d c)) [
  | inr last ↦ rw last h
  | inl first ↦ rw first (elim h [
    | inl new ↦ inr (Among-insert_by n x c cs (inl new))
    | inr old ↦ elim old [
      | inl now ↦ inl now
      | inr later ↦ inr (Among-insert_by n x c cs (inr later))
    ]
  ])
]

pub Among-ordered :
    (n : Bool) (x : Candidate) (cs : List Candidate) → Among x cs → Among x (ordered n cs)
unfolding ordered
Among-ordered n x [] h = h
Among-ordered n x (c ∷ cs) (inl now) = Among-insert_by n x c (ordered n cs) (inl now)
Among-ordered n x (c ∷ cs) (inr later) =
    Among-insert_by n x c (ordered n cs) (inr (Among-ordered n x cs later))

pub All-Among :
    (P : Candidate → Type 0) (x : Candidate) (cs : List Candidate) → All P cs → Among x cs → P x
All-Among P x [] hs h = absurd h
All-Among P x (c ∷ cs) hs (inl now) = rw now hs.0
All-Among P x (c ∷ cs) hs (inr later) = All-Among P x cs hs.1 later
