-- ===== src/Billing/Family/Elders.antt =====
-- The tier of a member as one count over the stored agreements, with no join, filter or sort.
use fk_cesis_mms.Base.{
  ℕ, ◌≡◌, refl, sym, ap, ◌∙◌, ◌+◌, Bool, true, false, not, ◌&&◌, ◌||◌, Option, none, some, List, [],
  ◌∷◌, ltb, ◌==◌, arith, count_if, if◌then◌else◌, Bool-cases, Option-cases, inl, inr, min, keep,
}
use fk_cesis_mms.Base.Text.{Text, text_eq}
use fk_cesis_mms.Models.{
  Member, MemberStatus, active, discontinued, Agreement, AgreementState, generated, sent, signed,
  void, superseded, Db, find_member, find_plan,
}
use fk_cesis_mms.Billing.Calendar.{Date, date_le}
use fk_cesis_mms.Billing.Plan.{MembershipPlan}
use fk_cesis_mms.Billing.Family.{Candidate, before, family, in_family, joined, compute_family_tier}
use fk_cesis_mms.Billing.Family.Order.{Among}
use fk_cesis_mms.Billing.Family.Rank.{OneCurrent, tier-count}

-- One signature comes before another: by its time, then by the member's key; a time that is missing
-- comes where the database puts it.
abbrev pub earlier : Bool → Option ℕ → Option ℕ → ℕ → ℕ → Bool
earlier nulls_last (some s) (some t) j k = ltb s t || (s == t && ltb j k)
earlier nulls_last (some s) none j k = nulls_last
earlier nulls_last none (some t) j k = not nulls_last
earlier nulls_last none none j k = ltb j k

-- Still a member after the day: no end, or an end after it.
abbrev pub stays : Option Date → MemberStatus → Date → Bool
stays none active due = true
stays none discontinued due = false
stays (some day) status due = not (date_le day due)

abbrev pub is_in_force : AgreementState → Bool
is_in_force signed = true
is_in_force generated = false
is_in_force sent = false
is_in_force void = false
is_in_force superseded = false
is_in_force AgreementState.discontinued = false

abbrev pub is_for_season : List MembershipPlan → Text → Option ℕ → Bool
is_for_season plans season none = false
is_for_season plans season (some k) = elim (find_plan k plans) [
  | none ↦ false
  | some p ↦ text_eq p.season season
]

joined-absent :
    (members : List Member) (a : Agreement) (rows : List Agreement)
    → find_member a.member_id members ≡ none
    → joined members (a ∷ rows) ≡ joined members rows
joined-absent members a rows absent = rw (joined, absent) refl

joined-found :
    (members : List Member) (a : Agreement) (rows : List Agreement) (m : Member)
    → find_member a.member_id members ≡ some m
    → joined members (a ∷ rows) ≡ (a, m) ∷ joined members rows
joined-found members a rows m found = rw (joined, found) refl

count-skip :
    (p : Agreement → Bool) (a : Agreement) (rows : List Agreement)
    → p a ≡ false
    → count_if p (a ∷ rows) ≡ count_if p rows
count-skip p a rows h = rw h (omega arith)

keep-yes :
    (p : Candidate → Bool) (c : Candidate) (cs : List Candidate)
    → p c ≡ true
    → keep p (c ∷ cs) ≡ c ∷ keep p cs
keep-yes p c cs h = rw h refl

keep-no :
    (p : Candidate → Bool) (c : Candidate) (cs : List Candidate)
    → p c ≡ false
    → keep p (c ∷ cs) ≡ keep p cs
keep-no p c cs h = rw h refl

module _ (nulls_last : Bool) (db : Db) (guardian_id : ℕ) (plan : MembershipPlan) (due : Date)
    (scoped : Bool) where
  -- The agreement `a` of the member `m` counts before the agreement `c`: it is current and signed,
  -- for the season where that is asked for, its member has the guardian and stays, and it was
  -- signed earlier.
  abbrev counts : Agreement → Agreement → Member → Bool
  counts c a m =
      a.is_current
      && is_in_force a.state
      && (m.guardian_id == guardian_id)
      && stays m.discontinued_effective_date m.status due
      && (not scoped || is_for_season db.plans plan.season a.billing_plan_id)
      && earlier nulls_last a.signed_at c.signed_at a.member_id c.member_id

  abbrev pub is_elder : Agreement → Agreement → Bool
  is_elder c a = elim (find_member a.member_id db.members) [ none ↦ false | some m ↦ counts c a m ]

  before_lem :
      (a b : Agreement) (m k : Member)
      → before nulls_last (a, m) (b, k)
        ≡ earlier nulls_last a.signed_at b.signed_at a.member_id b.member_id
  before_lem a b m k = elim (Option-cases a.signed_at) [
    | inl e ↦ elim (Option-cases b.signed_at) [
      | inl f ↦ rw (e, f) (ground arith)
      | inr (t, f) ↦ rw (e, f) (ground arith)
    ]
    | inr (s, e) ↦ elim (Option-cases b.signed_at) [
      | inl f ↦ rw (e, f) (ground arith)
      | inr (t, f) ↦ rw (e, f) (ground arith)
    ]
  ]

  counts_lem :
      (c a : Agreement) (k m : Member)
      → counts c a m
        ≡ in_family db guardian_id plan due scoped (a, m) && before nulls_last (a, m) (c, k)
  counts_lem c a k m = rw (before_lem a c m k) (ground arith)

  elder-found :
      (c a : Agreement) (m : Member)
      → find_member a.member_id db.members ≡ some m
      → is_elder c a ≡ counts c a m
  elder-found c a m found = rw (is_elder, found) refl

  elder-absent :
      (c a : Agreement) → find_member a.member_id db.members ≡ none → is_elder c a ≡ false
  elder-absent c a absent = rw (is_elder, absent) refl

  elders-count :
      (c : Agreement) (k : Member) (rows : List Agreement)
      → count_if (is_elder c) rows
        ≡ count_if
            (λ d. before nulls_last d (c, k))
            (keep (in_family db guardian_id plan due scoped) (joined db.members rows))
  elders-count c k [] = refl
  elders-count c k (a ∷ rows) =
      let test = in_family db guardian_id plan due scoped in
      let first : Candidate → Bool = λ d. before nulls_last d (c, k) in
      let rest = elders-count c k rows in
      let cs = joined db.members rows in
      elim (Option-cases (find_member a.member_id db.members)) [
        | inl absent ↦
            count-skip (is_elder c) a rows (elder-absent c a absent)
            ∙ rest
            ∙ ap (λ l. count_if first (keep test l)) (sym (joined-absent db.members a rows absent))
        | inr (m, found) ↦
            let opened =
              ap (λ l. count_if first (keep test l))
                (sym (joined-found db.members a rows m found)) in
            let is = elder-found c a m found ∙ counts_lem c a k m in
            elim (Bool-cases (test (a, m))) [
              | inl kept ↦
                  ap (λ p. (if p then 1 else 0) + count_if (is_elder c) rows)
                    (is ∙ ap (λ p. p && first (a, m)) kept)
                  ∙ ap (λ l. (if first (a, m) then 1 else 0) + l) rest
                  ∙ ap (count_if first) (sym (keep-yes test (a, m) cs kept))
                  ∙ opened
              | inr dropped ↦
                  count-skip (is_elder c) a rows (is ∙ ap (λ p. p && first (a, m)) dropped)
                  ∙ rest
                  ∙ ap (count_if first) (sym (keep-no test (a, m) cs dropped))
                  ∙ opened
            ]
      ]

-- The tier of a member with an agreement in the family is the number, at most 3, of stored
-- agreements that count before it: each is current and signed, for the season where that is asked
-- for, of a member with the same guardian who stays after the due date, and was signed earlier, or
-- at the same time for a member with a lower key, a missing time standing where the database puts
-- it. Each member has at most one current agreement.
pub tier-elders :
    (n : Bool) (db : Db) (member : Member) (plan : MembershipPlan) (due : Date) (scoped : Bool)
    (a : Agreement) (m : Member)
    → OneCurrent db.agreements
    → Among (a, m) (family db member.guardian_id plan due scoped)
    → a.member_id ≡ member.pk
    → compute_family_tier n db member plan due scoped
      ≡ min (count_if (is_elder n db member.guardian_id plan due scoped a) db.agreements) 3
tier-elders n db member plan due scoped a m unique h own =
    tier-count n db member plan due scoped unique (a, m) h own
    ∙ ap (λ k. min k 3)
        (sym (elders-count n db member.guardian_id plan due scoped a m db.agreements))
