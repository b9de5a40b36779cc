-- ===== src/AdminHub/Pipeline/Load.antt =====
-- `load_pipeline_objects` of apps/admin_hub/pipeline.py: which of a member's records is the one of
-- the season, of a season to come, and of another season of the same agreement.
use fk_cesis_mms.Base.{
  ℕ, ◌≡◌, refl, sym, ◌∙◌, ap, Bool, false, not, ◌&&◌, Option, none, some, List, [], ◌∷◌, ◌==◌,
  if◌then◌else◌, keep, arith,
}
use fk_cesis_mms.Base.Text.{Text, is_blank, text_eq, text_lt}
use fk_cesis_mms.Models.{Agreement, BillingRecord, BillingInvoice, Member, Db, find_plan}
use fk_cesis_mms.Billing.Store.{current_agreement}
use fk_cesis_mms.AdminHub.Pipeline.{ApplicationStatus, PipelineObjects}

-- `order_by("season")`
abbrev insert_record : BillingRecord → List BillingRecord → List BillingRecord
insert_record r [] = r ∷ []
insert_record r (s ∷ rows) =
    let later = insert_record r rows in
    if text_lt s.season r.season then s ∷ later else r ∷ s ∷ rows

abbrev by_season : List BillingRecord → List BillingRecord
by_season [] = []
by_season (r ∷ rows) = insert_record r (by_season rows)

-- The three records that the loop finds.
pub record Found : Type 0 where
  pub billing_record : Option BillingRecord
  pub next_season_record : Option BillingRecord
  pub mismatched_record : Option BillingRecord

abbrev or_record : Option BillingRecord → BillingRecord → Option BillingRecord
or_record none r = some r
or_record (some s) r = some s

abbrev is_of : Option Agreement → BillingRecord → Bool
is_of none r = false
is_of (some a) r = elim r.agreement_id [ none ↦ false | some k ↦ k == a.pk ]

-- One round of the loop.
unfoldable pub classify : Text → Option Agreement → Found → BillingRecord → Found
classify season agreement f r =
    if not (is_blank season) && text_eq r.season season
    then record f { billing_record = some r }
    else if not (is_blank season) && text_lt season r.season
    then record f { next_season_record = or_record f.next_season_record r }
    else if not (is_blank season) && is_of agreement r
    then record f { mismatched_record = or_record f.mismatched_record r }
    else f

unfoldable pub classify_all : Text → Option Agreement → Found → List BillingRecord → Found
classify_all season agreement f [] = f
classify_all season agreement f (r ∷ rows) =
    classify_all season agreement (classify season agreement f r) rows

abbrev pub no_record : Found
no_record = record { billing_record = none; next_season_record = none; mismatched_record = none }

-- The season of the agreement's plan, and a blank text without one. (A plan that is referred to
-- exists.)
abbrev season_of : Db → Option Agreement → Text
season_of db none = []
season_of db (some a) = elim a.billing_plan_id [
  | none ↦ []
  | some k ↦ elim (find_plan k db.plans) [ none ↦ [] | some p ↦ p.season ]
]

abbrev first_record : List BillingRecord → Option BillingRecord
first_record [] = none
first_record (r ∷ rows) = some r

-- Without a season the first record stands for the missing one.
abbrev or_first : Text → List BillingRecord → Option BillingRecord → Option BillingRecord
or_first season rows none = if is_blank season then first_record rows else none
or_first season rows (some r) = some r

abbrev invoices_in : Option BillingRecord → List BillingInvoice
invoices_in none = []
invoices_in (some r) = r.invoices

abbrev load_for : Db → ApplicationStatus → Member → PipelineObjects
load_for db status member =
    let agreement = current_agreement member.pk db.agreements in
    let rows = by_season (keep (λ r. r.member_id == member.pk) db.records) in
    let season = season_of db agreement in
    let found = classify_all season agreement no_record rows in
    let billing = or_first season rows found.billing_record in
    record {
      status = status;
      member = some member;
      current_agreement = agreement;
      billing_record = billing;
      invoices = invoices_in billing;
      next_season_record = found.next_season_record;
      mismatched_record = found.mismatched_record;
    }

unfoldable pub load_pipeline_objects : Db → ApplicationStatus → Option Member → PipelineObjects
load_pipeline_objects db status none = record {
  status = status;
  member = none;
  current_agreement = none;
  billing_record = none;
  invoices = [];
  next_season_record = none;
  mismatched_record = none;
}
load_pipeline_objects db status (some member) = load_for db status member

-- The first and the last record that pass a test.
abbrev pub first_where : (BillingRecord → Bool) → List BillingRecord → Option BillingRecord
first_where p [] = none
first_where p (r ∷ rows) = let rest = first_where p rows in if p r then some r else rest

abbrev or_else : Option BillingRecord → Option BillingRecord → Option BillingRecord
or_else none o = o
or_else (some r) o = some r

abbrev pub last_where : (BillingRecord → Bool) → List BillingRecord → Option BillingRecord
last_where p [] = none
last_where p (r ∷ rows) = or_else (last_where p rows) (if p r then some r else none)

or_else-none : (o : Option BillingRecord) → or_else o none ≡ o
or_else-none none = refl
or_else-none (some r) = refl

or_else_assoc : (a b c : Option BillingRecord) → or_else (or_else a b) c ≡ or_else a (or_else b c)
or_else_assoc none b c = refl
or_else_assoc (some r) b c = refl

first_where-or :
    (p : BillingRecord → Bool) (r : BillingRecord) (rows : List BillingRecord)
    → or_else (first_where p (r ∷ [])) (first_where p rows) ≡ first_where p (r ∷ rows)
first_where-or p r rows = ground arith

-- What is kept after one row, and then after the rest.
first_step :
    (p : BillingRecord → Bool) (before : Option BillingRecord) (r : BillingRecord)
    (rows : List BillingRecord) {one all : Option BillingRecord}
    → one ≡ or_else before (first_where p (r ∷ []))
    → all ≡ or_else one (first_where p rows)
    → all ≡ or_else before (first_where p (r ∷ rows))
first_step p before r rows {one = one} {all = all} h k =
    k
    ∙ ap (λ o. or_else o (first_where p rows)) h
    ∙ or_else_assoc before (first_where p (r ∷ [])) (first_where p rows)
    ∙ ap (or_else before) (first_where-or p r rows)

-- The record refers to the agreement.
abbrev pub has_key : Option ℕ → ℕ → Bool
has_key none k = false
has_key (some j) k = j == k

abbrev pub refers_to : Option Agreement → BillingRecord → Bool
refers_to none r = false
refers_to (some a) r = has_key r.agreement_id a.pk

is_of_lem :
    (agreement : Option Agreement) (r : BillingRecord) → is_of agreement r ≡ refers_to agreement r
is_of_lem none r = refl
is_of_lem (some a) r = ground arith

module _ (season : Text) (agreement : Option Agreement) where
  abbrev pub is_same : BillingRecord → Bool
  is_same r = text_eq r.season season

  abbrev pub is_later : BillingRecord → Bool
  is_later r = not (text_eq r.season season) && text_lt season r.season

  abbrev pub is_elsewhere : BillingRecord → Bool
  is_elsewhere r =
      not (text_eq r.season season) && (not (text_lt season r.season) && refers_to agreement r)

  -- What a loop over the rows makes of what was found before.
  abbrev Extends : Found → List BillingRecord → Found → Type 0
  Extends f rows out =
      (out.billing_record ≡ or_else (last_where is_same rows) f.billing_record)
      × (out.next_season_record ≡ or_else f.next_season_record (first_where is_later rows))
      × (out.mismatched_record ≡ or_else f.mismatched_record (first_where is_elsewhere rows))

  one_lem :
      (f : Found) (r : BillingRecord)
      → is_blank season ≡ false
      → Extends f (r ∷ []) (classify season agreement f r)
  unfolding classify
  one_lem f r h = ground (arith, h, is_of_lem agreement r)

  classify_all-Extends :
      (f : Found) (rows : List BillingRecord)
      → is_blank season ≡ false
      → Extends f rows (classify_all season agreement f rows)
  unfolding classify_all
  classify_all-Extends f [] h =
      (refl, sym (or_else-none f.next_season_record), sym (or_else-none f.mismatched_record))
  classify_all-Extends f (r ∷ rows) h =
      let f' = classify season agreement f r in
      let (same, later, elsewhere) = one_lem f r h in
      let (same', later', elsewhere') = classify_all-Extends f' rows h in
      (
        same'
            ∙ ap (or_else (last_where is_same rows)) same
            ∙ sym (
                or_else_assoc (last_where is_same rows) (last_where is_same (r ∷ []))
                  f.billing_record),
        first_step is_later f.next_season_record r rows later later',
        first_step is_elsewhere f.mismatched_record r rows elsewhere elsewhere',
      )

  -- With a season, the loop over the records finds the last record of the season, the first one of
  -- a later season, and the first one that is of an earlier season and refers to the agreement, and
  -- nothing where there is none.
  pub classify_all-IsClassified :
      (rows : List BillingRecord)
      → is_blank season ≡ false
      → let found = classify_all season agreement no_record rows in
        (found.billing_record ≡ last_where is_same rows)
        × (found.next_season_record ≡ first_where is_later rows)
        × (found.mismatched_record ≡ first_where is_elsewhere rows)
  classify_all-IsClassified rows h =
      let (same, later, elsewhere) = classify_all-Extends no_record rows h in
      (same ∙ or_else-none (last_where is_same rows), later, elsewhere)
