-- ===== src/Agreements/Laws/Signs.antt =====
-- A signature and the billing record that it leaves behind.
use fk_cesis_mms.Base.{
  ℕ, ◌≡◌, refl, sym, ap, ◌∙◌, Bool, true, Option, some, List, [], ◌∷◌, arith, ◌==◌, Bool-cases,
  Option-cases, ◌⊎◌, inl, inr, ==_refl,
}
use mathlib.Core.Path.{subst}
use fk_cesis_mms.Errors.{Result, ok, Result-cases}
use fk_cesis_mms.Models.{
  Agreement, generated, sent, signed, signed_mail, Actor, Member, BillingRecord, Db, find_agreement,
  find_member, find_plan, agreement_signed,
}
use fk_cesis_mms.Models.Action.{Action, ◌>>=◌, ◌>>◌, pure}
use fk_cesis_mms.Models.Action.Bind.{first_value}
use fk_cesis_mms.Billing.Plan.{MembershipPlan}
use fk_cesis_mms.Billing.Store.{find_for, is_for, add_audit}
use fk_cesis_mms.Billing.Draft.{plan_for, create_draft_billing, create_draft_billing_for_member}
use fk_cesis_mms.Billing.Draft.Outcome.{draft_record}
use fk_cesis_mms.Billing.Draft.Laws.{
  Drafts, raised, no_plan_found, kept, added, create_draft-Drafts, find_for-append, text_eq_refl,
}
use fk_cesis_mms.Agreements.Number.{save_agreement}
use fk_cesis_mms.Agreements.Signing.{member_of, send_agreement_email}
use fk_cesis_mms.Agreements.Signed.{
  signing_guards, as_signed, signer_label, announce_signed, on_agreement_signed,
  mark_agreement_signed,
}
use fk_cesis_mms.Agreements.Laws.Delivers.{send_email-Keeps}
use fk_cesis_mms.Agreements.Effects.Save.{find-saved}
use fk_cesis_mms.Agreements.Effects.Signing.{announce_signed-Quiet, sign-refused, sign-passed}
use fk_cesis_mms.Agreements.Laws.Guards.{
  MaySign, guards-MaySign, IsInSeason, check-IsInSeason, signable-cases,
}

find_member-pk :
    (k : ℕ) (members : List Member) (m : Member) → find_member k members ≡ some m → m.pk ≡ k
find_member-pk k [] m h = absurd (cc)
find_member-pk k (n ∷ members) m h = elim (Bool-cases (n.pk == k)) [
  | inl e ↦ let same : n ≡ m = cc (rw e at h) in rw (← same) (ground arith)
  | inr e ↦ find_member-pk k members m (rw e at h)
]

Drafts-found :
    (n : Bool) (m : Member) (a : Agreement) (p : MembershipPlan) (db : Db)
    {out : Result (Option BillingRecord × Bool) × Db} (b : Option BillingRecord × Bool)
    → Drafts n m (some a) db out
    → plan_for db.plans (some a) ≡ ok (some p)
    → out.0 ≡ ok b
    → (r : BillingRecord) × (find_for m.pk p.season out.1.records ≡ some r)
Drafts-found n m a p db b (raised e) h is = absurd (cc)
Drafts-found n m a p db b (no_plan_found h') h is = absurd (cc)
Drafts-found n m a p db b (kept q r planned found) h is =
    let same : q ≡ p = cc in (r, rw (← same) found)
Drafts-found n m a p db b (added q amounts scheduled planned missing made) h is =
    let new = draft_record n m q (some a) a.first_billing_month db amounts scheduled in
    let same : q ≡ p = cc in
    let own : is_for m.pk q.season new ≡ true = rw (==_refl m.pk, text_eq_refl q.season) refl in
    (new, rw (← same) (find_for-append m.pk q.season db.records new missing own))

plan_for-found :
    (a : Agreement) (plans : List MembershipPlan) (k : ℕ) (p : MembershipPlan)
    → a.billing_plan_id ≡ some k
    → find_plan k plans ≡ some p
    → plan_for plans (some a) ≡ ok (some p)
unfolding plan_for
plan_for-found a plans k p e f = ground (arith, e, f)

draft-found :
    (n : Bool) (m : Member) (a : Agreement) (p : MembershipPlan) (db : Db)
    (b : Option BillingRecord)
    → plan_for db.plans (some a) ≡ ok (some p)
    → (create_draft_billing_for_member n m (some a) db).0 ≡ ok b
    → (r : BillingRecord) × (find_for m.pk p.season
          (create_draft_billing_for_member n m (some a) db).1.records
        ≡ some r)
unfolding create_draft_billing_for_member
draft-found n m a p db b planned h =
    let (out, e, _, same) =
      first_value (create_draft_billing n m (some a)) (λ (r, _). pure r) db b h in
    rw same (Drafts-found n m a p db out (create_draft-Drafts n m (some a) db) planned e)

member_of-found :
    (a : Agreement) (db : Db) (m : Member)
    → (member_of a db).0 ≡ ok m
    → (m.pk ≡ a.member_id) × ((member_of a db).1 ≡ db)
unfolding member_of
member_of-found a db m h = elim (Option-cases (find_member a.member_id db.members)) [
  | inl e ↦ absurd (cc (rw e at h))
  | inr (m', e) ↦
      let same : m' ≡ m = cc (rw e at h) in
      (rw (← same) (find_member-pk a.member_id db.members m' e), rw e refl)
]

-- The record stands after the rest of the signal's call.
signal-for :
    (n : Bool) (a : Agreement) (p : MembershipPlan) (db : Db) (u : Unit {0}) (m : Member)
    → plan_for db.plans (some a) ≡ ok (some p)
    → m.pk ≡ a.member_id
    → ((create_draft_billing_for_member n m (some a) >>= λ _. pure tt) db).0 ≡ ok u
    → (r : BillingRecord) × (find_for a.member_id p.season
          ((create_draft_billing_for_member n m (some a) >>= λ _. pure tt) db).1.records
        ≡ some r)
signal-for n a p db u m planned key h =
    let (b, e, _, same) =
      first_value (create_draft_billing_for_member n m (some a)) (λ _. pure tt) db u h in
    let (r, found) = draft-found n m a p db b planned e in
    subst
      (λ k.
        (r : BillingRecord) × (find_for k p.season
            ((create_draft_billing_for_member n m (some a) >>= λ _. pure tt) db).1.records
          ≡ some r))
      key (r, ap (λ d. find_for m.pk p.season d.records) same ∙ found)

signal-found :
    (n : Bool) (a : Agreement) (p : MembershipPlan) (db : Db) (u : Unit {0})
    → plan_for db.plans (some a) ≡ ok (some p)
    → (on_agreement_signed n a db).0 ≡ ok u
    → (r : BillingRecord) × (find_for a.member_id p.season (on_agreement_signed n a db).1.records
        ≡ some r)
unfolding on_agreement_signed
signal-found n a p db u planned h =
    let rest : Member → Action (Unit {0}) =
      λ m. create_draft_billing_for_member n m (some a) >>= λ _. pure tt in
    let (m, e, h', same) = first_value (member_of a) rest db u h in
    let (key, still) = member_of-found a db m e in
    let (r, found) =
      signal-for n a p db u m planned key (ap (λ d. (rest m d).0) (sym still) ∙ h') in
    (
      r,
      ap (λ d. find_for a.member_id p.season d.records) (same ∙ ap (λ d. (rest m d).1) still)
          ∙ found,
    )

announce-found :
    (n : Bool) (a : Agreement) (actor : Option Actor) (p : MembershipPlan) (db : Db) (u : Unit {0})
    → plan_for db.plans (some a) ≡ ok (some p)
    → (announce_signed n a actor db).0 ≡ ok u
    → (r : BillingRecord) × (find_for a.member_id p.season (announce_signed n a actor db).1.records
        ≡ some r)
unfolding announce_signed
announce-found n a actor p db u planned h =
    let db' = add_audit (agreement_signed a.pk (signer_label actor)) db in
    let mail = send_agreement_email a signed_mail in
    let rest : Unit {0} → Action (Unit {0}) = λ _. on_agreement_signed n a in
    let (_, _, h', same) = first_value mail rest db' u h in
    let mailed = send_email-Keeps a signed_mail in
    let (plans, _, _) = mailed.keeps db' in
    let (r, found) =
      signal-found n a p (mail db').1 u (ap (λ ps. plan_for ps (some a)) plans ∙ planned) h' in
    (r, ap (λ d. find_for a.member_id p.season d.records) same ∙ found)

module _ (n : Bool) (a : Agreement) (actor : Option Actor) (now : ℕ) (db : Db)
    (found : find_agreement a.pk db.agreements ≡ some a) where
  -- What a signature leaves: the stored agreement is signed, its guards had passed, and its member
  -- has a billing record in the season of its plan.
  abbrev pub IsBilled : Agreement → Db → Type 0
  IsBilled b db' =
      (b ≡ record a { state = signed; signed_at = some now })
      × ((a.state ≡ generated) ⊎ (a.state ≡ sent))
      × (find_agreement a.pk db'.agreements ≡ some b)
      × ((p : MembershipPlan) × MaySign db.plans a p
          × IsInSeason p a.first_billing_month
          × ((r : BillingRecord) × (find_for a.member_id p.season db'.records ≡ some r)))

  signed-after :
      (p : MembershipPlan) (b : Agreement)
      → MaySign db.plans a p
      → ((announce_signed n (as_signed now a) actor >> pure (as_signed now a))
          (save_agreement a.pk (as_signed now) db)).0
        ≡ ok b
      → IsBilled b
          ((announce_signed n (as_signed now a) actor >> pure (as_signed now a))
            (save_agreement a.pk (as_signed now) db)).1
  signed-after p b may h =
      let a' = as_signed now a in
      let db' = save_agreement a.pk (as_signed now) db in
      let announce = announce_signed n a' actor in
      let (u, e, is, same) = first_value announce (λ _. pure a') db' b h in
      let (k, plan_id, stored, signable, _, _, check) = may in
      let (r, billed) =
        announce-found n a' actor p db' u (plan_for-found a' db.plans k p plan_id stored) e in
      let quiet = announce_signed-Quiet n a' actor in
      let (rows, _) = quiet.leaves db' in
      let value : a' ≡ b = cc in
      (
        sym value,
        signable-cases a.state signable,
        ap (λ d. find_agreement a.pk d.agreements) same
            ∙ ap (find_agreement a.pk) rows
            ∙ find-saved a.pk (as_signed now) a db.agreements found refl
            ∙ ap some value,
        (
          p,
          may,
          check-IsInSeason p a.first_billing_month check,
          (r, ap (λ d. find_for a.member_id p.season d.records) same ∙ billed),
        ),
      )

  -- A signature that returns leaves the stored agreement in the state signed, with the time of the
  -- call and else as it was; it was generated or sent, had a month, and a stored active plan of its
  -- key, in whose season-start year the month lies after it is normalized; and its member has a
  -- billing record in the season of that plan.
  pub sign-IsBilled :
      (b : Agreement)
      → (mark_agreement_signed n a actor now db).0 ≡ ok b
      → IsBilled b (mark_agreement_signed n a actor now db).1
  sign-IsBilled b h = elim (Result-cases (signing_guards db.plans a)) [
    | inr (e, refused) ↦ absurd (cc (rw (sign-refused a db n actor now e refused) at h))
    | inl (u, passed) ↦
        let (p, may) = guards-MaySign db.plans a u passed in
        let call = sign-passed a db n actor now u passed in
        subst (λ out. IsBilled b out.1) (sym call)
          (signed-after p b may (ap (λ out. out.0) (sym call) ∙ h))
  ]
