-- ===== src/Billing/Draft/Laws.antt =====
-- Drafts: one record for each member and season, and a second call that finds the first one's.
use fk_cesis_mms.Base.{
  ℕ, ◌≡◌, refl, ◌∙◌, ap, Bool, true, false, Option, none, some, List, [], ◌∷◌, ◌++◌, arith, ==_refl,
}
use fk_cesis_mms.Base.Text.{Text, text_eq}
use fk_cesis_mms.Errors.{Error, Result, ok, err}
use fk_cesis_mms.Models.{Member, Agreement, BillingRecord, Db}
use fk_cesis_mms.Models.Action.{atomic}
use fk_cesis_mms.Billing.Plan.{MembershipPlan}
use fk_cesis_mms.Billing.Money.{BillingAmounts}
use fk_cesis_mms.Billing.Store.{find_for, is_for, add_record}
use fk_cesis_mms.Billing.Store.Unique.{IsUnique, find_for-none, append-IsUnique}
use fk_cesis_mms.Billing.Draft.{
  month_of, plan_for, draft_amounts, create_for_season, create_draft_billing,
}
use fk_cesis_mms.Billing.Draft.Outcome.{
  Creates, old, fails, adds, draft_record, create-old, create_for_season-Creates,
}

pub text_eq_refl : (s : Text) → text_eq s s ≡ true
text_eq_refl [] = refl
text_eq_refl (c ∷ s) = ground (arith, text_eq_refl s)

-- A row that is added at the end is found, if no row before it is.
pub find_for-append :
    (member_id : ℕ) (season : Text) (rows : List BillingRecord) (r : BillingRecord)
    → find_for member_id season rows ≡ none
    → is_for member_id season r ≡ true
    → find_for member_id season (rows ++ r ∷ []) ≡ some r
find_for-append member_id season [] r h k = rw k
find_for-append member_id season (x ∷ rows) r h k =
    ground (arith, find_for-append member_id season rows r)

-- The call as the outcome of its block.
abbrev finished :
    Db → Result (BillingRecord × Bool) × Db → Result (Option BillingRecord × Bool) × Db
finished db (ok (r, created), db') = (ok (some r, created), db')
finished db (err e, db') = (err e, db)

module _ (n : Bool) (member : Member) (agreement : Option Agreement) where
  draft-plan :
      (p : MembershipPlan) (db : Db)
      → plan_for db.plans agreement ≡ ok (some p)
      → create_draft_billing n member agreement db
        ≡ finished db (create_for_season n member p agreement (month_of agreement) db)
  unfolding create_draft_billing atomic
  draft-plan p db h = ground arith

  draft-no_plan :
      (db : Db)
      → plan_for db.plans agreement ≡ ok none
      → create_draft_billing n member agreement db ≡ (ok (none, false), db)
  unfolding create_draft_billing
  draft-no_plan db h = ground arith

  draft_raises :
      (db : Db) (e : Error)
      → plan_for db.plans agreement ≡ err e
      → create_draft_billing n member agreement db ≡ (err e, db)
  unfolding create_draft_billing
  draft_raises db e h = ground arith

  -- What a call has done, by how it ended: it has raised or found no plan and changed nothing, or
  -- has returned the old record of the season, or has added the one that it returns.
  pub data Drafts (db : Db) : Result (Option BillingRecord × Bool) × Db → Type 0 where
    raised : (e : Error) → Drafts db (err e, db)
    no_plan_found : plan_for db.plans agreement ≡ ok none → Drafts db (ok (none, false), db)
    kept :
        (p : MembershipPlan) (r : BillingRecord)
        → plan_for db.plans agreement ≡ ok (some p)
        → find_for member.pk p.season db.records ≡ some r
        → Drafts db (ok (some r, false), db)
    added :
        (p : MembershipPlan) (amounts : BillingAmounts) (scheduled : Option ℕ)
        → plan_for db.plans agreement ≡ ok (some p)
        → find_for member.pk p.season db.records ≡ none
        → draft_amounts n db member p agreement (month_of agreement) ≡ ok (amounts, scheduled)
        → Drafts db (
          ok (
            some (draft_record n member p agreement (month_of agreement) db amounts scheduled),
            true,
          ),
          add_record
              (draft_record n member p agreement (month_of agreement) db amounts scheduled)
              db,
        )

  finished-Drafts :
      (p : MembershipPlan) (db : Db) {out : Result (BillingRecord × Bool) × Db}
      → plan_for db.plans agreement ≡ ok (some p)
      → Creates n member p agreement (month_of agreement) db out
      → Drafts db (finished db out)
  finished-Drafts p db h (old r found) = kept p r h found
  finished-Drafts p db h (fails e missing) = raised e
  finished-Drafts p db h (adds amounts scheduled missing made) =
      added p amounts scheduled h missing made

  pub create_draft-Drafts : (db : Db) → Drafts db (create_draft_billing n member agreement db)
  create_draft-Drafts db = by_plan (plan_for db.plans agreement) refl
    where
      by_plan :
          (plan : Result (Option MembershipPlan))
          → plan_for db.plans agreement ≡ plan
          → Drafts db (create_draft_billing n member agreement db)
      by_plan (err e) h = rw (draft_raises db e h) (raised e)
      by_plan (ok none) h = rw (draft-no_plan db h) (no_plan_found h)
      by_plan (ok (some p)) h = rw (draft-plan p db h) (
          finished-Drafts p db h
            (create_for_season-Creates n member p agreement (month_of agreement) db))

  Drafts-IsUnique :
      (db : Db) {out : Result (Option BillingRecord × Bool) × Db}
      → Drafts db out
      → IsUnique db.records
      → IsUnique out.1.records
  Drafts-IsUnique db (raised e) u = u
  Drafts-IsUnique db (no_plan_found h) u = u
  Drafts-IsUnique db (kept p r h found) u = u
  Drafts-IsUnique db (added p amounts scheduled h missing made) u =
      append-IsUnique db.records
        (draft_record n member p agreement (month_of agreement) db amounts scheduled) u
        (find_for-none member.pk p.season db.records missing)

  -- A draft call keeps one billing record for each member and season, on every branch.
  pub create_draft-IsUnique :
      (db : Db)
      → IsUnique db.records
      → IsUnique (create_draft_billing n member agreement db).1.records
  create_draft-IsUnique db u = Drafts-IsUnique db (create_draft-Drafts db) u

  again :
      (p : MembershipPlan) (r : BillingRecord) (db : Db)
      → plan_for db.plans agreement ≡ ok (some p)
      → find_for member.pk p.season db.records ≡ some r
      → create_draft_billing n member agreement db ≡ (ok (some r, false), db)
  again p r db h found =
      draft-plan p db h
      ∙ ap (finished db) (create-old n member p agreement (month_of agreement) db r found)

  Drafts-again :
      (db : Db) {out : Result (Option BillingRecord × Bool) × Db} (r : BillingRecord)
      (created : Bool)
      → Drafts db out
      → out.0 ≡ ok (some r, created)
      → create_draft_billing n member agreement out.1 ≡ (ok (some r, false), out.1)
  Drafts-again db r created (raised e) is = absurd (cc)
  Drafts-again db r created (no_plan_found h) is = absurd (cc)
  Drafts-again db r created (kept p r' h found) is =
      let same : r' ≡ r = cc in rw (← same) (again p r' db h found)
  Drafts-again db r created (added p amounts scheduled h missing made) is =
      let new = draft_record n member p agreement (month_of agreement) db amounts scheduled in
      let same : new ≡ r = cc in
      let own : is_for member.pk p.season new ≡ true =
        rw (==_refl member.pk, text_eq_refl p.season) in
      rw (← same) (
        again p new (add_record new db) h
          (find_for-append member.pk p.season db.records new missing own))

  -- After a draft call that returned a record, the same call returns that record as an old one and
  -- changes nothing.
  pub create_draft_again :
      (db : Db) (r : BillingRecord) (created : Bool)
      → (create_draft_billing n member agreement db).0 ≡ ok (some r, created)
      → let db' = (create_draft_billing n member agreement db).1 in
        create_draft_billing n member agreement db' ≡ (ok (some r, false), db')
  create_draft_again db r created is = Drafts-again db r created (create_draft-Drafts db) is
