-- ===== src/Billing/Discontinue/Laws.antt =====
-- When a discontinuation goes through, what it leaves alone, and what becomes of its invoices.
use fk_cesis_mms.Base.{
  ℕ, ◌≡◌, ◌≢◌, ◌↔◌, inl, inr, refl, ap, ◌∙◌, true, false, ◌||◌, none, some, List, [], ◌∷◌, length,
  All, Bool-cases, ◌==◌, ==_iff, arith, all, Bool, false, if◌then◌else◌, ◌++◌, keep, count_if,
  contains, sym,
}
use mathlib.Core.Path.{subst}
use fk_cesis_mms.Base.Text.{Text, codes, is_blank, text_eq}
use fk_cesis_mms.Errors.{Error, Result, ok, err, Result-cases, foreign_invoice}
use fk_cesis_mms.Models.{BillingInvoice, BillingRecord, paid, partial, Db}
use fk_cesis_mms.Models.Action.{Unchanged}
use fk_cesis_mms.Billing.Calendar.{Date}
use fk_cesis_mms.Billing.Discontinue.{
  is_invoice_due_to_send, selected_of, check_selected, check_all, cancelled, cancel_all, jobs_of,
  process_selected, create_discontinuation_adjustments,
}

-- A cancelled invoice is never due to send.
pub cancelled-due :
    (now : ℕ) (reason : Text) (i : BillingInvoice) (today : Date)
    → is_invoice_due_to_send (cancelled now reason i) today ≡ false
unfolding is_invoice_due_to_send cancelled
cancelled-due now reason i today = ground arith

-- What an invoice must be to be cancelled: not paid, not sent by hand, and with a status that says
-- what Invoice Ninja has.
abbrev pub IsCancellable : BillingInvoice → Type 0
IsCancellable i =
    (i.payment_status ≢ some paid)
    × (i.payment_status ≢ some partial)
    × (is_blank i.external_invoice_id ≡ true → i.sent_at ≡ none)
    × (is_blank i.external_invoice_id ≡ false
        → text_eq i.external_status (codes "created") || text_eq i.external_status (codes "sent")
          ≡ true)

check_iff : (i : BillingInvoice) → (check_selected i ≡ ok tt) ↔ IsCancellable i
unfolding check_selected
check_iff i = ground arith

check_all_iff :
    (selected : List BillingInvoice) → (check_all selected ≡ ok tt) ↔ All IsCancellable selected
check_all_iff [] = ((λ _. tt), (λ _. refl))
check_all_iff (i ∷ rest) = elim (Result-cases (check_selected i)) [
  | inl (u, e) ↦
      let (to, from) = check_all_iff rest in
      rw e ((λ h. ((check_iff i).0 e, to h)), (λ h. from h.1))
  | inr (x, e) ↦ rw e ((λ h. absurd (cc)), (λ h. let good = (check_iff i).1 h.0 in absurd (cc)))
]

-- The invoices of a member.
abbrev pub owned : ℕ → List BillingRecord → List BillingInvoice
owned member_id [] = []
owned member_id (r ∷ rows) =
    let rest = owned member_id rows in if r.member_id == member_id then r.invoices ++ rest else rest

module _ (p : BillingInvoice → Bool) where
  keep-append : (xs ys : List BillingInvoice) → keep p (xs ++ ys) ≡ keep p xs ++ keep p ys
  keep-append [] ys = refl
  keep-append (x ∷ xs) ys = ground (arith, keep-append xs ys)

  length-keep : (xs : List BillingInvoice) → length (keep p xs) ≡ count_if p xs
  length-keep [] = refl
  length-keep (x ∷ xs) = ground (arith, length-keep xs)

  All-keep :
      (P : BillingInvoice → Type 0) (xs : List BillingInvoice)
      → All P (keep p xs) ↔ All (λ x. p x ≡ true → P x) xs
  All-keep P [] = ((λ _. tt), (λ _. tt))
  All-keep P (x ∷ xs) =
      let (to, from) = All-keep P xs in
      elim (Bool-cases (p x)) [
        | inl e ↦ rw (e, All) ((λ h. ((λ _. h.0), to h.1)), (λ h. (h.0 refl, from h.1)))
        | inr e ↦ rw (e, All) ((λ h. ((λ x. absurd (cc)), to h)), (λ h. from h.1))
      ]

selected-owned :
    (member_id : ℕ) (ids : List ℕ) (rows : List BillingRecord)
    → selected_of member_id ids rows ≡ keep (λ i. contains ids i.pk) (owned member_id rows)
selected-owned member_id ids [] = refl
selected-owned member_id ids (r ∷ rows) =
    let rest = selected-owned member_id ids rows in
    let both = keep-append (λ i. contains ids i.pk) r.invoices (owned member_id rows) in
    elim (Bool-cases (r.member_id == member_id)) [
      | inl e ↦ rw (e, both) (ap (λ l. keep (λ i. contains ids i.pk) r.invoices ++ l) rest)
      | inr e ↦ rw e rest
    ]

module _ (member_id k : ℕ) (ids : List ℕ) (reason : Text) (now : ℕ) (db : Db) where
  abbrev selected : List BillingInvoice
  selected = selected_of member_id (k ∷ ids) db.records

  -- How a call for some invoices ends.
  data Ends : Result (List (ℕ × Text)) × Db → Type 0 where
    refused : (e : Error) → Ends (err e, db)
    cancels :
        (length selected ≡ length (k ∷ ids))
        → All IsCancellable selected
        → Ends (ok (jobs_of selected), cancel_all now reason selected db)

  foreign :
      (length selected == length (k ∷ ids)) ≡ false
      → create_discontinuation_adjustments member_id (k ∷ ids) reason now db
        ≡ (err foreign_invoice, db)
  unfolding create_discontinuation_adjustments
  foreign h = ground (arith, h)

  own :
      (length selected == length (k ∷ ids)) ≡ true
      → create_discontinuation_adjustments member_id (k ∷ ids) reason now db
        ≡ process_selected selected reason now db
  unfolding create_discontinuation_adjustments
  own h = ground (arith, h)

  process-fails :
      (e : Error)
      → check_all selected ≡ err e
      → process_selected selected reason now db ≡ (err e, db)
  unfolding process_selected
  process-fails e h = rw h refl

  process-cancels :
      check_all selected ≡ ok tt
      → process_selected selected reason now db
        ≡ (ok (jobs_of selected), cancel_all now reason selected db)
  unfolding process_selected
  process-cancels h = rw h refl

  discontinue-Ends : Ends (create_discontinuation_adjustments member_id (k ∷ ids) reason now db)
  discontinue-Ends = elim (Bool-cases (length selected == length (k ∷ ids))) [
    | inr h ↦ rw (foreign h) (refused foreign_invoice)
    | inl h ↦ rw (own h) (elim (Result-cases (check_all selected)) [
      | inl (u, e) ↦ rw (process-cancels e) (
          cancels ((==_iff (length selected) (length (k ∷ ids))).0 h)
            ((check_all_iff selected).0 e))
      | inr (x, e) ↦ rw (process-fails x e) (refused x)
    ])
  ]

  Ends-Unchanged : {out : Result (List (ℕ × Text)) × Db} → Ends out → Unchanged db out
  Ends-Unchanged (refused e) = refl
  Ends-Unchanged (cancels h all) = tt

  Ends-IsCancellable :
      {out : Result (List (ℕ × Text)) × Db} (jobs : List (ℕ × Text))
      → Ends out
      → out.0 ≡ ok jobs
      → (length selected ≡ length (k ∷ ids)) × All IsCancellable selected
  Ends-IsCancellable jobs (refused x) e = absurd (cc)
  Ends-IsCancellable jobs (cancels h all) e = (h, all)

  allowed :
      length selected ≡ length (k ∷ ids)
      → All IsCancellable selected
      → create_discontinuation_adjustments member_id (k ∷ ids) reason now db
        ≡ (ok (jobs_of selected), cancel_all now reason selected db)
  allowed h all =
      own ((==_iff (length selected) (length (k ∷ ids))).1 h)
      ∙ process-cancels ((check_all_iff selected).1 all)

  -- A discontinuation for some keys of invoices goes through exactly when as many invoices of the
  -- member's records have one of the keys as keys were given, and each of these invoices may be
  -- cancelled.
  pub discontinue_iff :
      ((jobs : List (ℕ × Text)) × ((create_discontinuation_adjustments member_id
            (k ∷ ids)
            reason
            now
            db).0
          ≡ ok jobs))
      ↔ ((count_if (λ i. contains (k ∷ ids) i.pk) (owned member_id db.records) ≡ length (k ∷ ids))
          × All
              (λ i. contains (k ∷ ids) i.pk ≡ true → IsCancellable i)
              (owned member_id db.records))
  discontinue_iff =
      let same = selected-owned member_id (k ∷ ids) db.records in
      let counted = length-keep (λ i. contains (k ∷ ids) i.pk) (owned member_id db.records) in
      let (to, from) =
        All-keep (λ i. contains (k ∷ ids) i.pk) IsCancellable (owned member_id db.records) in
      (
        λ (jobs, e).
            let (h, all) = Ends-IsCancellable jobs discontinue-Ends e in
            (sym counted ∙ ap length (sym same) ∙ h, to (subst (All IsCancellable) same all)),
        λ (h, all). (
          jobs_of selected,
          ap (λ o. o.0)
              (allowed (ap length same ∙ counted ∙ h)
                (subst (All IsCancellable) (sym same) (from all))),
        ),
      )

-- A discontinuation that raises has changed nothing: each check comes before the first write.
pub discontinue-Unchanged :
    (member_id : ℕ) (ids : List ℕ) (reason : Text) (now : ℕ) (db : Db)
    → Unchanged db (create_discontinuation_adjustments member_id ids reason now db)
unfolding create_discontinuation_adjustments
discontinue-Unchanged member_id [] reason now db = tt
discontinue-Unchanged member_id (k ∷ ids) reason now db =
    Ends-Unchanged member_id k ids reason now db (discontinue-Ends member_id k ids reason now db)
