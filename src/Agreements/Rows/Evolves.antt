-- ===== src/Agreements/Rows/Evolves.antt =====
-- What a call does to the stored agreements, as a relation, and the invariant that it keeps.
use fk_cesis_mms.Base.{
  ℕ, suc, ◌≤◌, ◌<◌, ◌≡◌, refl, sym, ap, ◌∙◌, true, false, some, List, [], ◌∷◌, ◌++◌, arith, All,
  ◌==◌, Bool-cases, inl, inr,
}
use mathlib.Core.Path.{subst}
use fk_cesis_mms.Base.Text.{Text}
use fk_cesis_mms.Models.{Agreement, Db, find_agreement}
use fk_cesis_mms.Billing.Reassign.{update_agreement}
use fk_cesis_mms.Agreements.Clock.{Clock}
use fk_cesis_mms.Agreements.States.{
  Succeeds, Succeeds-refl, Succeeds-trans, IsSettled, Succeeds-IsSettled,
}
use fk_cesis_mms.Agreements.Rows.Distinct.{
  clash, Distinct, Follows, update-Distinct, append-Distinct,
}
use fk_cesis_mms.Agreements.Rows.Numbers.{Fits}

module _ (clock : Clock) (prefix : Text) where
  -- A row below the next key, past only in a state that allows it, with a number of its year.
  abbrev pub IsFit : ℕ → Agreement → Type 0
  IsFit next a = (a.pk < next) × IsSettled a × Fits clock prefix a

  -- The invariant of the stored agreements.
  abbrev pub IsSound : Db → Type 0
  IsSound db = Distinct db.agreements × All (IsFit db.next_pk) db.agreements

  -- A row that may be added.
  abbrev pub IsNew : Db → Agreement → Type 0
  IsNew db new =
      (new.pk ≡ db.next_pk)
      × (new.is_current ≡ true)
      × Fits clock prefix new
      × All (λ a. clash a new ≡ false) db.agreements

  -- A call saves rows that follow the old ones, adds rows, and does so one after the other.
  pub data Evolves : Db → Db → Type 0 where
    keeps :
        {db db' : Db} → db'.agreements ≡ db.agreements → db.next_pk ≤ db'.next_pk → Evolves db db'
    saves :
        {db db' : Db} (k : ℕ) (f : Agreement → Agreement)
        → db'.agreements ≡ update_agreement k f db.agreements
        → db.next_pk ≤ db'.next_pk
        → All (Follows k f) db.agreements
        → Evolves db db'
    creates :
        {db db' : Db} (new : Agreement)
        → db'.agreements ≡ db.agreements ++ new ∷ []
        → db'.next_pk ≡ suc db.next_pk
        → IsNew db new
        → Evolves db db'
    steps : {db db' db'' : Db} → Evolves db db' → Evolves db' db'' → Evolves db db''

  IsFit-grows :
      (n n' : ℕ) (rows : List Agreement) → n ≤ n' → All (IsFit n) rows → All (IsFit n') rows
  IsFit-grows n n' [] h fits = tt
  IsFit-grows n n' (a ∷ rows) h ((below, settled, fit), fits) =
      ((omega (arith, h, below), settled, fit), IsFit-grows n n' rows h fits)

  Succeeds-IsFit : (n : ℕ) (a b : Agreement) → Succeeds a b → IsFit n a → IsFit n b
  Succeeds-IsFit n a b s (below, settled, fit) =
      let (p, _, at, number, _, _) = s in
      (
        rw p below,
        Succeeds-IsSettled a b s settled,
        λ year sequence is.
            subst (λ t. (clock.year_start year ≤ t) × (t < clock.year_start (suc year))) (sym at)
              (fit year sequence (sym number ∙ is)),
      )

  update-IsFit :
      (n k : ℕ) (f : Agreement → Agreement) (rows : List Agreement)
      → All (Follows k f) rows
      → All (IsFit n) rows
      → All (IsFit n) (update_agreement k f rows)
  update-IsFit n k f [] follows fits = tt
  update-IsFit n k f (a ∷ rows) (follow, follows) (fit, fits) = elim (Bool-cases (a.pk == k)) [
    | inl e ↦ rw e (Succeeds-IsFit n a (f a) (follow e) fit, update-IsFit n k f rows follows fits)
    | inr e ↦ rw e (fit, update-IsFit n k f rows follows fits)
  ]

  append-IsFit :
      (n : ℕ) (new : Agreement) (rows : List Agreement)
      → IsFit n new
      → All (IsFit n) rows
      → All (IsFit n) (rows ++ new ∷ [])
  append-IsFit n new [] fit fits = (fit, tt)
  append-IsFit n new (a ∷ rows) fit (h, fits) = (h, append-IsFit n new rows fit fits)

  -- The invariant is kept.
  pub Evolves-IsSound : {db db' : Db} → Evolves db db' → IsSound db → IsSound db'
  Evolves-IsSound {db} {db'} (keeps same more) (d, fits) =
      rw same (d, IsFit-grows db.next_pk db'.next_pk db.agreements more fits)
  Evolves-IsSound {db} {db'} (saves k f same more follows) (d, fits) = rw same (
    update-Distinct k f db.agreements follows d,
    update-IsFit db'.next_pk k f db.agreements follows
        (IsFit-grows db.next_pk db'.next_pk db.agreements more fits),
  )
  Evolves-IsSound {db} {db'} (creates new same more (key, current, fit, free)) (d, fits) =
      let own : IsFit db'.next_pk new = (omega (arith, key, more), (λ past. absurd (cc)), fit) in
      rw same (
        append-Distinct new db.agreements free d,
        append-IsFit db'.next_pk new db.agreements own
            (IsFit-grows db.next_pk db'.next_pk db.agreements (omega (arith, more)) fits),
      )
  Evolves-IsSound (steps first second) sound = Evolves-IsSound second (Evolves-IsSound first sound)

  pub find-pk :
      (k : ℕ) (rows : List Agreement) (a : Agreement)
      → find_agreement k rows ≡ some a
      → (a.pk == k) ≡ true
  find-pk k [] a h = absurd (cc)
  find-pk k (b ∷ rows) a h = elim (Bool-cases (b.pk == k)) [
    | inl e ↦ let same : b ≡ a = cc (rw e at h) in rw (← same) e
    | inr e ↦ find-pk k rows a (rw e at h)
  ]

  find-update :
      (j k : ℕ) (f : Agreement → Agreement) (rows : List Agreement) (a : Agreement)
      → All (Follows k f) rows
      → find_agreement j rows ≡ some a
      → (b : Agreement) × (find_agreement j (update_agreement k f rows) ≡ some b) × Succeeds a b
  find-update j k f [] a follows h = absurd (cc)
  find-update j k f (c ∷ rows) a (follow, follows) h = elim (Bool-cases (c.pk == j)) [
    | inr e ↦
        let (b, found, s) = find-update j k f rows a follows (rw e at h) in
        elim (Bool-cases (c.pk == k)) [
          | inl g ↦ (b, rw (g, (follow g).0, e) found, s)
          | inr g ↦ (b, rw (g, e) found, s)
        ]
    | inl e ↦
        let same : c ≡ a = cc (rw e at h) in
        subst
          (λ x.
            (b : Agreement) × (find_agreement j (update_agreement k f (c ∷ rows)) ≡ some b)
            × Succeeds x b)
          same
          (elim (Bool-cases (c.pk == k)) [
            | inl g ↦ (f c, rw (g, (follow g).0, e) refl, follow g)
            | inr g ↦ (c, rw (g, e) refl, Succeeds-refl c)
          ])
  ]

  pub find-append :
      (j : ℕ) (new : Agreement) (rows : List Agreement) (a : Agreement)
      → find_agreement j rows ≡ some a
      → find_agreement j (rows ++ new ∷ []) ≡ some a
  find-append j new [] a h = absurd (cc)
  find-append j new (c ∷ rows) a h = elim (Bool-cases (c.pk == j)) [
    | inl e ↦ rw e (rw e at h)
    | inr e ↦ rw e (find-append j new rows a (rw e at h))
  ]

  -- Each stored agreement is stored afterwards, with what may become of it.
  pub Evolves-Succeeds :
      {db db' : Db}
      → Evolves db db'
      → (k : ℕ) (a : Agreement) → find_agreement k db.agreements ≡ some a
      → (b : Agreement) × (find_agreement k db'.agreements ≡ some b) × Succeeds a b
  Evolves-Succeeds (keeps same more) k a found =
      (a, ap (find_agreement k) same ∙ found, Succeeds-refl a)
  Evolves-Succeeds {db} {db'} (saves j f same more follows) k a found =
      let (b, h, s) = find-update k j f db.agreements a follows found in
      (b, ap (find_agreement k) same ∙ h, s)
  Evolves-Succeeds {db} {db'} (creates new same more fresh) k a found =
      (a, ap (find_agreement k) same ∙ find-append k new db.agreements a found, Succeeds-refl a)
  Evolves-Succeeds (steps first second) k a found =
      let (b, h, s) = Evolves-Succeeds first k a found in
      let (c, h', s') = Evolves-Succeeds second k b h in (c, h', Succeeds-trans a b c s s')
