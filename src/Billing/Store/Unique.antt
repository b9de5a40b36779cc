-- ===== src/Billing/Store/Unique.antt =====
-- One billing record for each member and season (the constraint
-- `one_billing_record_per_member_per_season`), under the updates of the services.
use fk_cesis_mms.Base.{
  ℕ, ◌≡◌, refl, ◌∙◌, false, none, List, [], ◌∷◌, ◌++◌, arith, All, Bool-cases, inl, inr,
}
use fk_cesis_mms.Base.Text.{Text, text_eq}
use fk_cesis_mms.Models.{BillingRecord}
use fk_cesis_mms.Billing.Store.{is_for, find_for}

abbrev pub IsUnique : List BillingRecord → Type 0
IsUnique [] = Unit
IsUnique (r ∷ rows) = All (λ s. is_for r.member_id r.season s ≡ false) rows × IsUnique rows

pub text_eq_comm : (s t : Text) → text_eq s t ≡ text_eq t s
text_eq_comm [] [] = refl
text_eq_comm [] (d ∷ t) = refl
text_eq_comm (c ∷ s) [] = refl
text_eq_comm (c ∷ s) (d ∷ t) = ground (arith, text_eq_comm s t)

pub is_for_comm :
    (r s : BillingRecord) → is_for r.member_id r.season s ≡ is_for s.member_id s.season r
is_for_comm r s = ground (arith, text_eq_comm r.season s.season)

-- Nothing was found: no row is for that member and season.
pub find_for-none :
    (member_id : ℕ) (season : Text) (rows : List BillingRecord)
    → find_for member_id season rows ≡ none
    → All (λ s. is_for member_id season s ≡ false) rows
find_for-none member_id season [] h = tt
find_for-none member_id season (r ∷ rows) h = elim (Bool-cases (is_for member_id season r)) [
  | inl found ↦ absurd (cc (rw found at h))
  | inr other ↦ (other, find_for-none member_id season rows (rw other at h))
]

All-append :
    (s : BillingRecord) (rows : List BillingRecord) (r : BillingRecord)
    → All (λ x. is_for s.member_id s.season x ≡ false) rows
    → is_for s.member_id s.season r ≡ false
    → All (λ x. is_for s.member_id s.season x ≡ false) (rows ++ r ∷ [])
All-append s [] r h k = (k, tt)
All-append s (x ∷ rows) r h k = (h.0, All-append s rows r h.1 k)

pub append-IsUnique :
    (rows : List BillingRecord) (r : BillingRecord)
    → IsUnique rows
    → All (λ s. is_for r.member_id r.season s ≡ false) rows
    → IsUnique (rows ++ r ∷ [])
append-IsUnique [] r u h = (tt, tt)
append-IsUnique (s ∷ rows) r u h =
    (All-append s rows r u.0 (is_for_comm s r ∙ h.0), append-IsUnique rows r u.1 h.1)
