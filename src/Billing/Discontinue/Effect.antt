-- ===== src/Billing/Discontinue/Effect.antt =====
-- What the loop of a discontinuation does to the stored invoices.
use mathlib.Core.Path.{subst}
use fk_cesis_mms.Base.{
  ℕ, ◌≡◌, refl, ap, sym, ◌∙◌, true, false, Option, none, some, List, [], ◌∷◌, any, Bool-cases, inl,
  inr, ◌==◌, arith, if◌then◌else◌,
}
use fk_cesis_mms.Base.Text.{Text}
use fk_cesis_mms.Models.{BillingInvoice, BillingRecord, Db}
use fk_cesis_mms.Billing.Discontinue.{
  cancelled, copy_cancellation, put_invoice, put_in_records, save_invoice, cancel_all,
}

-- The stored invoice of a key.
abbrev pub find_in : ℕ → List BillingInvoice → Option BillingInvoice
find_in k [] = none
find_in k (i ∷ rest) = let later = find_in k rest in if i.pk == k then some i else later

abbrev or_else : Option BillingInvoice → Option BillingInvoice → Option BillingInvoice
or_else none o = o
or_else (some i) o = some i

abbrev pub find_invoice : ℕ → List BillingRecord → Option BillingInvoice
find_invoice k [] = none
find_invoice k (r ∷ rows) = or_else (find_in k r.invoices) (find_invoice k rows)

-- A row after one save.
abbrev saved : BillingInvoice → ℕ → Option BillingInvoice → Option BillingInvoice
saved i k none = none
saved i k (some j) = some (if i.pk == k then copy_cancellation i j else j)

find-put :
    (i : BillingInvoice) (k : ℕ) (rows : List BillingInvoice)
    → find_in k (put_invoice i rows) ≡ saved i k (find_in k rows)
find-put i k [] = refl
find-put i k (j ∷ rest) = ground (arith, find-put i k rest)

or_else-saved :
    (i : BillingInvoice) (k : ℕ) (a b : Option BillingInvoice)
    → or_else (saved i k a) (saved i k b) ≡ saved i k (or_else a b)
or_else-saved i k none b = refl
or_else-saved i k (some j) b = refl

find-put_in_records :
    (i : BillingInvoice) (k : ℕ) (rows : List BillingRecord)
    → find_invoice k (put_in_records i rows) ≡ saved i k (find_invoice k rows)
find-put_in_records i k [] = refl
find-put_in_records i k (r ∷ rows) =
    rw (find-put i k r.invoices, find-put_in_records i k rows)
      (or_else-saved i k (find_in k r.invoices) (find_invoice k rows))

module _ (now : ℕ) (reason : Text) where
  -- The row was cancelled at the time and for the reason, and is the same invoice.
  abbrev pub IsCancelledFrom : BillingInvoice → Option BillingInvoice → Type 0
  IsCancelledFrom j none = ⊥
  IsCancelledFrom j (some i) =
      (i.cancelled_at ≡ some now)
      × (i.cancellation_reason ≡ reason)
      × (i.pk ≡ j.pk)
      × (i.sequence ≡ j.sequence)
      × (i.amount ≡ j.amount)
      × (i.payment_status ≡ j.payment_status)

  cancelled-pk : (i : BillingInvoice) → (cancelled now reason i).pk ≡ i.pk
  unfolding cancelled
  cancelled-pk i = ground arith

  cancelled-facts :
      (i : BillingInvoice)
      → ((cancelled now reason i).cancelled_at ≡ some now)
        × ((cancelled now reason i).cancellation_reason ≡ reason)
  unfolding cancelled
  cancelled-facts i = ground arith

  -- A save of a cancelled row, by whether it is the row of the key.
  save-hit :
      (i j : BillingInvoice) (k : ℕ)
      → (i.pk == k) ≡ true
      → saved (cancelled now reason i) k (some j)
        ≡ some (copy_cancellation (cancelled now reason i) j)
  save-hit i j k h = rw (cancelled-pk i, h) refl

  save-miss :
      (i : BillingInvoice) (k : ℕ) (o : Option BillingInvoice)
      → (i.pk == k) ≡ false
      → saved (cancelled now reason i) k o ≡ o
  save-miss i k none h = refl
  save-miss i k (some j) h = rw (cancelled-pk i, h) refl

  stays :
      (i j : BillingInvoice) (k : ℕ) (o : Option BillingInvoice)
      → IsCancelledFrom j o
      → IsCancelledFrom j (saved (cancelled now reason i) k o)
  stays i j k none h = absurd h
  stays i j k (some row) h = elim (Bool-cases (i.pk == k)) [
    | inl e ↦
        let (at, why) = cancelled-facts i in
        let (_, _, a, b, c, d) = h in
        subst (λ o. IsCancelledFrom j o) (sym (save-hit i row k e)) (at, why, a, b, c, d)
    | inr e ↦ subst (λ o. IsCancelledFrom j o) (sym (save-miss i k (some row) e)) h
  ]

  all-stays :
      (selected : List BillingInvoice) (k : ℕ) (j : BillingInvoice) (db : Db)
      → IsCancelledFrom j (find_invoice k db.records)
      → IsCancelledFrom j (find_invoice k (cancel_all now reason selected db).records)
  unfolding cancel_all
  all-stays [] k j db h = h
  all-stays (i ∷ rest) k j db h = all-stays rest k j (save_invoice (cancelled now reason i) db) (
      rw (find-put_in_records (cancelled now reason i) k db.records)
        (stays i j k (find_invoice k db.records) h))

  -- The loop cancels each stored invoice whose key is that of a selected one, at the time and for
  -- the reason given, and keeps its key, number, amount and payment status.
  pub cancel_all-IsCancelledFrom :
      (selected : List BillingInvoice) (k : ℕ) (j : BillingInvoice) (db : Db)
      → find_invoice k db.records ≡ some j
      → any (λ i. i.pk == k) selected ≡ true
      → IsCancelledFrom j (find_invoice k (cancel_all now reason selected db).records)
  unfolding cancel_all
  cancel_all-IsCancelledFrom [] k j db found h = absurd (cc)
  cancel_all-IsCancelledFrom (i ∷ rest) k j db found h =
      let put = find-put_in_records (cancelled now reason i) k db.records in
      let db' = save_invoice (cancelled now reason i) db in
      elim (Bool-cases (i.pk == k)) [
        | inl e ↦
            let (at, why) = cancelled-facts i in
            all-stays rest k j db' (
              subst (λ o. IsCancelledFrom j o)
                (sym (put ∙ ap (saved (cancelled now reason i) k) found ∙ save-hit i j k e))
                (at, why, refl, refl, refl, refl))
        | inr e ↦
            cancel_all-IsCancelledFrom rest k j db'
              (put ∙ save-miss i k (find_invoice k db.records) e ∙ found) (rw e at h)
      ]

  -- The loop leaves each stored invoice alone whose key is not that of a selected one.
  pub cancel_all-other :
      (selected : List BillingInvoice) (k : ℕ) (db : Db)
      → any (λ i. i.pk == k) selected ≡ false
      → find_invoice k (cancel_all now reason selected db).records ≡ find_invoice k db.records
  unfolding cancel_all
  cancel_all-other [] k db h = refl
  cancel_all-other (i ∷ rest) k db h = elim (Bool-cases (i.pk == k)) [
    | inl e ↦ absurd (cc (rw e at h))
    | inr e ↦
        cancel_all-other rest k (save_invoice (cancelled now reason i) db) (rw e at h)
        ∙ find-put_in_records (cancelled now reason i) k db.records
        ∙ save-miss i k (find_invoice k db.records) e
  ]
