-- ===== src/Agreements/Effects/Fresh.antt =====
-- A new agreement: it is added with a free number, and nothing refuses it.
use fk_cesis_mms.Base.{
  ℕ, suc, ◌<◌, ◌≡◌, refl, sym, ap, ◌∙◌, Bool, true, false, Option, none, some, List, [], ◌∷◌, ◌++◌,
  arith, any, All, ◌==◌,
}
use mathlib.Core.Path.{subst}
use fk_cesis_mms.Base.Text.{Text}
use fk_cesis_mms.Errors.{Result, ok}
use fk_cesis_mms.Models.{Agreement, SigningPath, Db}
use fk_cesis_mms.Models.Action.{◌>>=◌}
use fk_cesis_mms.Billing.Reassign.{update_agreement}
use fk_cesis_mms.Billing.Store.Unique.{text_eq_comm}
use fk_cesis_mms.Agreements.Clock.{Clock}
use fk_cesis_mms.Agreements.Number.{
  agreement_number_prefix, number_for, next_agreement_sequence_for_year, has_number, number_taken,
  with_number, save_agreement, try_numbers, assign_agreement_number,
}
use fk_cesis_mms.Agreements.Create.{is_current_of, new_agreement, add_agreement, insert_agreement}
use fk_cesis_mms.Agreements.Rows.Distinct.{clash, same_number}
use fk_cesis_mms.Agreements.Rows.Numbers.{Fits, number_for-year, next_number_free}
use fk_cesis_mms.Agreements.Rows.Evolves.{IsFit, IsSound, Evolves, creates}

some_inj : (s t : Text) → some s ≡ some t → s ≡ t
some_inj s t h = cc

not_taken :
    (k : ℕ) (number : Text) (rows : List Agreement)
    → any (λ a. has_number number a.agreement_number) rows ≡ false
    → number_taken k number rows ≡ false
not_taken k number [] h = refl
not_taken k number (a ∷ rows) h = ground (arith, not_taken k number rows, h)

-- The update reaches the added row alone.
update-append :
    (k : ℕ) (f : Agreement → Agreement) (rows : List Agreement) (new : Agreement)
    → All (λ a. a.pk < k) rows
    → new.pk ≡ k
    → update_agreement k f (rows ++ new ∷ []) ≡ rows ++ f new ∷ []
update-append k f [] new h own = let hit : (new.pk == k) ≡ true = ground arith in rw hit refl
update-append k f (a ∷ rows) new (h, hs) own =
    let miss : (a.pk == k) ≡ false = ground arith in
    rw (miss, update-append k f rows new hs own) refl

has_number_comm :
    (number : Text) (o : Option Text) → same_number o (some number) ≡ has_number number o
has_number_comm number none = refl
has_number_comm number (some other) = text_eq_comm other number

no_clash :
    (new : Agreement) (number : Text) (rows : List Agreement)
    → new.agreement_number ≡ some number
    → All (λ a. a.pk < new.pk) rows
    → any (is_current_of new.member_id) rows ≡ false
    → any (λ a. has_number number a.agreement_number) rows ≡ false
    → All (λ a. clash a new ≡ false) rows
no_clash new number [] is below current free = tt
no_clash new number (a ∷ rows) is (h, below) current free = (
  rw (is, has_number_comm number a.agreement_number) (ground (arith, h, current, free)),
  no_clash new number rows is below (ground (arith, current)) (ground (arith, free)),
)

-- An attempt with a free number is the last one.
try-free :
    (clock : Clock) (setting : Option Text) (left year : ℕ) (a : Agreement) (db : Db)
    → let number =
        number_for
          (agreement_number_prefix setting)
          year
          (next_agreement_sequence_for_year clock year db.agreements) in
      number_taken a.pk number db.agreements ≡ false
      → try_numbers clock setting (suc left) year a db
        ≡ (ok (with_number number a), save_agreement a.pk (with_number number) db)
unfolding try_numbers
try-free clock setting left year a db free =
    let number =
      number_for (agreement_number_prefix setting) year
        (next_agreement_sequence_for_year clock year db.agreements) in
    subst
      (λ taken.
        ◌≡◌ {A = Result Agreement × Db}
          (elim taken as (λ _. Result Agreement × Db) [
            | true ↦ try_numbers clock setting left year a db
            | false ↦ (ok (with_number number a), save_agreement a.pk (with_number number) db)
          ])
          (ok (with_number number a), save_agreement a.pk (with_number number) db))
      (sym free) refl

module _ (clock : Clock) (setting : Option Text) (member_id : ℕ) (path : SigningPath) (now : ℕ)
    (plan_id : Option ℕ) (month : Text) (db : Db) where
  abbrev prefix : Text
  prefix = agreement_number_prefix setting

  abbrev unnumbered : Agreement
  unnumbered = new_agreement db.next_pk member_id path now plan_id month

  abbrev number : Text
  number = number_for prefix (clock.local_date now).year (
      next_agreement_sequence_for_year clock (clock.local_date now).year
        (db.agreements ++ unnumbered ∷ []))

  -- The agreement that is added.
  abbrev pub fresh_agreement : Agreement
  fresh_agreement = with_number number unnumbered

  below_next :
      (n : ℕ) (rows : List Agreement) → All (IsFit clock prefix n) rows → All (λ a. a.pk < n) rows
  below_next n [] fits = tt
  below_next n (a ∷ rows) ((below, _, _), fits) = (below, below_next n rows fits)

  rows-Fits :
      (n : ℕ) (rows : List Agreement)
      → All (IsFit clock prefix n) rows
      → All (Fits clock prefix) (rows ++ unnumbered ∷ [])
  rows-Fits n [] fits = ((λ year sequence is. absurd (cc)), tt)
  rows-Fits n (a ∷ rows) ((_, _, fit), fits) = (fit, rows-Fits n rows fits)

  any-front :
      (p : Agreement → Bool) (rows : List Agreement) (a : Agreement)
      → any p (rows ++ a ∷ []) ≡ false
      → any p rows ≡ false
  any-front p [] a h = refl
  any-front p (b ∷ rows) a h = ground (arith, h, any-front p rows a)

  insert-free :
      any (is_current_of member_id) db.agreements ≡ false
      → (insert_agreement member_id path now plan_id month
            >>= assign_agreement_number clock setting)
          db
        ≡ assign_agreement_number clock setting unnumbered (add_agreement unnumbered db)
  unfolding insert_agreement
  insert-free h = ground (arith, h)

  module _ (sound : IsSound clock prefix db) where
    is_free :
        any (λ a. has_number number a.agreement_number) (db.agreements ++ unnumbered ∷ []) ≡ false
    is_free =
        next_number_free clock prefix (clock.local_date now).year (db.agreements ++ unnumbered ∷ [])
          (rows-Fits db.next_pk db.agreements sound.1)

    assign-first :
        assign_agreement_number clock setting unnumbered (add_agreement unnumbered db) ≡ (
          ok fresh_agreement,
          save_agreement db.next_pk (with_number number) (add_agreement unnumbered db),
        )
    unfolding assign_agreement_number
    assign-first =
        try-free clock setting 4 (clock.local_date now).year unnumbered
          (add_agreement unnumbered db)
          (not_taken db.next_pk number (db.agreements ++ unnumbered ∷ []) is_free)

    -- Where the member has no current agreement, the new one is returned, and is added behind the
    -- others with its number.
    pub fresh_lem :
        any (is_current_of member_id) db.agreements ≡ false
        → (insert_agreement member_id path now plan_id month
              >>= assign_agreement_number clock setting)
            db
          ≡ (ok fresh_agreement, add_agreement fresh_agreement db)
    fresh_lem h =
        insert-free h
        ∙ assign-first
        ∙ ap
            (λ rows.
              (ok fresh_agreement, record (add_agreement unnumbered db) { agreements = rows }))
            (update-append db.next_pk (with_number number) db.agreements unnumbered
              (below_next db.next_pk db.agreements sound.1) refl)

    pub fresh-Evolves :
        any (is_current_of member_id) db.agreements ≡ false
        → Evolves clock prefix db (add_agreement fresh_agreement db)
    fresh-Evolves h = creates fresh_agreement refl refl (
      refl,
      refl,
      (λ year sequence is.
          let same =
            number_for-year prefix (clock.local_date now).year year
              (next_agreement_sequence_for_year clock (clock.local_date now).year
                (db.agreements ++ unnumbered ∷ []))
              sequence (some_inj number (number_for prefix year sequence) is) in
          rw (← same) (clock.starts now, clock.ends now)),
      no_clash fresh_agreement number db.agreements refl
          (below_next db.next_pk db.agreements sound.1) h
          (any-front (λ a. has_number number a.agreement_number) db.agreements unnumbered is_free),
    )
