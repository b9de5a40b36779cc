-- ===== src/Accounts/Links/Once.antt =====
-- A magic link is consumed once.
use fk_cesis_mms.Base.{
  ℕ, ◌≡◌, refl, sym, ap, ◌∙◌, true, false, none, some, List, [], ◌∷◌, arith, All, ltb, ◌==◌,
  Bool-cases, Option-cases, inl, inr, ==_refl,
}
use mathlib.Core.Path.{subst}
use fk_cesis_mms.Base.Text.{Text, text_eq, is_blank}
use fk_cesis_mms.Errors.{Result, ok, err, invalid_token, token_expired, does_not_exist}
use fk_cesis_mms.Accounts.Store.{ParentAccount, MagicLinkToken, Store, get_or_create}
use fk_cesis_mms.Accounts.Links.{
  find_account, update_token, find_token, is_open, spend, consume_claimed, consume_owned,
  consume_magic_link,
}

-- Each digest stands on one token (the column is unique).
abbrev pub HasUniqueHashes : List MagicLinkToken → Type 0
HasUniqueHashes [] = Unit
HasUniqueHashes (t ∷ tokens) =
    All (λ u. text_eq u.token_hash t.token_hash ≡ false) tokens × HasUniqueHashes tokens

text_eq→eq : (s t : Text) → text_eq s t ≡ true → s ≡ t
text_eq→eq [] [] h = refl
text_eq→eq [] (d ∷ t) h = absurd (cc)
text_eq→eq (c ∷ s) [] h = absurd (cc)
text_eq→eq (c ∷ s) (d ∷ t) h = ground (arith, text_eq→eq s t)

module _ (hash : Text → Text) (raw : Text) (key now account_id : ℕ) where
  -- A token that is not open stays so.
  spend-closed :
      (t : MagicLinkToken)
      → is_open hash raw t ≡ false
      → is_open hash raw (spend hash now account_id t) ≡ false
  spend-closed t h = ground (arith, h)

  others-closed :
      (digest : Text) (tokens : List MagicLinkToken)
      → digest ≡ hash raw
      → All (λ u. text_eq u.token_hash digest ≡ false) tokens
      → find_token hash
          (is_open hash raw)
          (update_token hash key (spend hash now account_id) tokens)
        ≡ none
  others-closed digest [] e h = refl
  others-closed digest (u ∷ tokens) e (h, hs) =
      let rest = others-closed digest tokens e hs in
      let other : text_eq u.token_hash (hash raw) ≡ false =
        subst (λ d. text_eq u.token_hash d ≡ false) e h in
      elim (Bool-cases (u.pk == key)) [ inl f ↦ rw (f, other) rest | inr f ↦ rw (f, other) rest ]

  -- Once the token is spent, no token of the text is open.
  spent-none :
      (tokens : List MagicLinkToken) (t : MagicLinkToken)
      → HasUniqueHashes tokens
      → find_token hash (is_open hash raw) tokens ≡ some t
      → t.pk ≡ key
      → find_token hash
          (is_open hash raw)
          (update_token hash key (spend hash now account_id) tokens)
        ≡ none
  spent-none [] t unique h k = refl
  spent-none (u ∷ tokens) t (other, unique) h k = elim (Bool-cases (is_open hash raw u)) [
    | inl e ↦
        let same : u ≡ t = cc (rw e at h) in
        let hit : (u.pk == key) ≡ true = rw (same, k) (==_refl key) in
        let mine : text_eq u.token_hash (hash raw) ≡ true = ground (arith, e) in
        let rest =
          others-closed u.token_hash tokens (text_eq→eq u.token_hash (hash raw) mine) other in
        rw (hit, mine) rest
    | inr e ↦
        let rest = spent-none tokens t unique (rw e at h) k in
        elim (Bool-cases (u.pk == key)) [
          | inl f ↦ rw (f, spend-closed u e) rest
          | inr f ↦ rw (f, e) rest
        ]
  ]

get_or_create-tokens :
    (email : Text) (store : Store) → (get_or_create email store).1.tokens ≡ store.tokens
unfolding get_or_create
get_or_create-tokens email store = ground arith

module _ (hash : Text → Text) (raw : Text) (now : ℕ) (store : Store) where
  consume-missing :
      find_token hash (is_open hash raw) store.tokens ≡ none
      → consume_magic_link hash raw now store ≡ (err invalid_token, store)
  unfolding consume_magic_link
  consume-missing h = ground (arith, h)

  -- The tokens after a call that returned are those of before, with one spent.
  abbrev IsSpent : Store → Type 0
  IsSpent store' =
      (t : MagicLinkToken) × (account_id : ℕ) × (find_token hash (is_open hash raw) store.tokens
        ≡ some t)
      × (store'.tokens ≡ update_token hash t.pk (spend hash now account_id) store.tokens)

  claimed-IsSpent :
      (t : MagicLinkToken) (a : ParentAccount)
      → find_token hash (is_open hash raw) store.tokens ≡ some t
      → (consume_claimed hash t now store).0 ≡ ok a
      → IsSpent (consume_claimed hash t now store).1
  claimed-IsSpent t a found h = elim (Bool-cases (is_blank t.claimed_email)) [
    | inl e ↦ absurd (cc (rw e at h))
    | inr e ↦
        let (account, _) = get_or_create t.claimed_email store in
        rw e (
          t,
          account.pk,
          found,
          ap (update_token hash t.pk (spend hash now account.pk))
              (get_or_create-tokens t.claimed_email store),
        )
  ]

  owned-IsSpent :
      (t : MagicLinkToken) (account a : ParentAccount)
      → find_token hash (is_open hash raw) store.tokens ≡ some t
      → (consume_owned hash t account now store).0 ≡ ok a
      → IsSpent (consume_owned hash t account now store).1
  owned-IsSpent t account a found h = elim (Bool-cases account.is_active) [
    | inr e ↦ absurd (cc (rw e at h))
    | inl e ↦ rw e (t, account.pk, found, refl)
  ]

  module _ (t : MagicLinkToken)
      (found : find_token hash (is_open hash raw) store.tokens ≡ some t) where
    consume-expired :
        ltb t.expires_at now ≡ true
        → consume_magic_link hash raw now store ≡ (err token_expired, store)
    unfolding consume_magic_link
    consume-expired e = ground (arith, found, e)

    consume-claimed :
        ltb t.expires_at now ≡ false
        → t.account_id ≡ none
        → consume_magic_link hash raw now store ≡ consume_claimed hash t now store
    unfolding consume_magic_link
    consume-claimed e g = ground (arith, found, e, g)

    consume-orphan :
        (k : ℕ)
        → ltb t.expires_at now ≡ false
        → t.account_id ≡ some k
        → find_account k store.accounts ≡ none
        → consume_magic_link hash raw now store ≡ (err does_not_exist, store)
    unfolding consume_magic_link
    consume-orphan k e g i = ground (arith, found, e, g, i)

    consume-owned :
        (k : ℕ) (account : ParentAccount)
        → ltb t.expires_at now ≡ false
        → t.account_id ≡ some k
        → find_account k store.accounts ≡ some account
        → consume_magic_link hash raw now store ≡ consume_owned hash t account now store
    unfolding consume_magic_link
    consume-owned k account e g i = ground (arith, found, e, g, i)

  -- What is known of a call that returned.
  abbrev Spends : Result ParentAccount × Store → Type 0
  Spends out = (a : ParentAccount) → out.0 ≡ ok a → IsSpent out.1

  consume-IsSpent : Spends (consume_magic_link hash raw now store)
  consume-IsSpent = elim (Option-cases (find_token hash (is_open hash raw) store.tokens)) [
    | inl e ↦ subst Spends (sym (consume-missing e)) (λ a h. absurd (cc))
    | inr (t, e) ↦ elim (Bool-cases (ltb t.expires_at now)) [
      | inl f ↦ subst Spends (sym (consume-expired t e f)) (λ a h. absurd (cc))
      | inr f ↦ elim (Option-cases t.account_id) [
        | inl g ↦ subst Spends (sym (consume-claimed t e f g)) (λ a h. claimed-IsSpent t a e h)
        | inr (k, g) ↦ elim (Option-cases (find_account k store.accounts)) [
          | inl i ↦ subst Spends (sym (consume-orphan t e k f g i)) (λ a h. absurd (cc))
          | inr (account, i) ↦
              subst Spends (sym (consume-owned t e k account f g i))
                (λ a h. owned-IsSpent t account a e h)
        ]
      ]
    ]
  ]

module _ (hash : Text → Text) (raw : Text) (now : ℕ) (store : Store) where
  -- Where each digest stands on one token, a magic link that was consumed is refused as invalid at
  -- any later time, and nothing changes.
  pub consume_once :
      (a : ParentAccount) (later : ℕ)
      → HasUniqueHashes store.tokens
      → (consume_magic_link hash raw now store).0 ≡ ok a
      → let store' = (consume_magic_link hash raw now store).1 in
        consume_magic_link hash raw later store' ≡ (err invalid_token, store')
  consume_once a later unique h =
      let store' = (consume_magic_link hash raw now store).1 in
      let (t, account_id, found, tokens) = consume-IsSpent hash raw now store a h in
      consume-missing hash raw later store' (
        ap (find_token hash (is_open hash raw)) tokens
        ∙ spent-none hash raw t.pk now account_id store.tokens t unique found refl)
