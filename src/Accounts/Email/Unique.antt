-- ===== src/Accounts/Email/Unique.antt =====
-- Addresses stay apart, whatever their case, when one changes.
use fk_cesis_mms.Base.{
  ℕ, ◌≡◌, Bool, true, false, ◌||◌, List, [], ◌∷◌, arith, All, ◌==◌, Bool-cases, inl, inr,
}
use fk_cesis_mms.Base.Text.{Text, text_eq, is_blank}
use fk_cesis_mms.Billing.Plan.{strip}
use fk_cesis_mms.Billing.Store.Unique.{text_eq_comm}
use fk_cesis_mms.Accounts.Store.{ParentAccount, Store, lower, iexact}
use fk_cesis_mms.Accounts.Email.{put_email, owned_by_other, change_parent_email}

-- Two accounts share a key or an address.
abbrev pub collides : ParentAccount → ParentAccount → Bool
collides a b = a.pk == b.pk || iexact a.email b.email

abbrev pub HasUniqueEmails : List ParentAccount → Type 0
HasUniqueEmails [] = Unit
HasUniqueEmails (a ∷ accounts) = All (λ b. collides a b ≡ false) accounts × HasUniqueEmails accounts

module _ (key : ℕ) (email : Text) where
  -- The changed account is apart from the others.
  put-others :
      (a : ParentAccount) (accounts : List ParentAccount)
      → (a.pk == key) ≡ true
      → owned_by_other key email accounts ≡ false
      → All (λ b. collides a b ≡ false) accounts
      → All (λ b. collides (record a { email = email }) b ≡ false) (put_email key email accounts)
  put-others a [] e free h = tt
  put-others a (b ∷ accounts) e free (h, hs) =
      let other : (b.pk == key) ≡ false = ground arith in
      let rest_free : owned_by_other key email accounts ≡ false = ground (arith, free, other) in
      let rest = put-others a accounts e rest_free hs in
      let comm = text_eq_comm (lower email) (lower b.email) in
      rw other (ground (arith, h, free, other, comm), rest)

  -- An account that is not changed is apart from the changed one.
  put-apart :
      (a : ParentAccount) (accounts : List ParentAccount)
      → (a.pk == key) ≡ false
      → iexact a.email email ≡ false
      → All (λ b. collides a b ≡ false) accounts
      → All (λ b. collides a b ≡ false) (put_email key email accounts)
  put-apart a [] e free h = tt
  put-apart a (b ∷ accounts) e free (h, hs) =
      let rest = put-apart a accounts e free hs in
      elim (Bool-cases (b.pk == key)) [
        | inl f ↦ rw f (ground (arith, h, e, f, free), rest)
        | inr f ↦ rw f (h, rest)
      ]

  put-HasUniqueEmails :
      (accounts : List ParentAccount)
      → owned_by_other key email accounts ≡ false
      → HasUniqueEmails accounts
      → HasUniqueEmails (put_email key email accounts)
  put-HasUniqueEmails [] free unique = tt
  put-HasUniqueEmails (a ∷ accounts) free (h, unique) = elim (Bool-cases (a.pk == key)) [
    | inl e ↦
        let rest_free : owned_by_other key email accounts ≡ false = rw e at free in
        rw e (put-others a accounts e rest_free h, put-HasUniqueEmails accounts rest_free unique)
    | inr e ↦
        let own : iexact a.email email ≡ false = ground (arith, free, e) in
        let rest_free : owned_by_other key email accounts ≡ false = ground (arith, free, e) in
        rw e (put-apart a accounts e own h, put-HasUniqueEmails accounts rest_free unique)
  ]

-- Where no two accounts share a key or an address in whatever case, none do after a change of an
-- address, on every branch.
pub change-HasUniqueEmails :
    (account : ParentAccount) (new_email : Text) (store : Store)
    → HasUniqueEmails store.accounts
    → HasUniqueEmails (change_parent_email account new_email store).1.accounts
unfolding change_parent_email
change-HasUniqueEmails account new_email store unique =
    let normalized = lower (strip new_email) in
    elim (Bool-cases (is_blank normalized)) [
      | inl e ↦ rw e unique
      | inr e ↦ elim (Bool-cases (text_eq normalized (lower account.email))) [
        | inl f ↦ rw (e, f) unique
        | inr f ↦ elim (Bool-cases (owned_by_other account.pk normalized store.accounts)) [
          | inl g ↦ rw (e, f, g) unique
          | inr g ↦ rw (e, f, g) (put-HasUniqueEmails account.pk normalized store.accounts g unique)
        ]
      ]
    ]
