-- ===== src/Accounts/Links.antt =====
-- Magic links of apps/accounts/services.py. The digest `hash` is that of `hashlib`, and the raw
-- token that of `secrets`.
pub mod Once
use fk_cesis_mms.Base.{
  ℕ, suc, ◌+◌, Bool, true, false, not, ◌&&◌, Option, none, some, List, [], ◌∷◌, ◌++◌, any, ltb,
  ◌==◌, if◌then◌else◌, is_some,
}
use fk_cesis_mms.Base.Text.{Text, is_blank, text_eq}
use fk_cesis_mms.Errors.{
  Result, ok, err, active_token_exists, rate_limit_exceeded, does_not_exist, invalid_token,
  token_expired, token_without_email, account_inactive,
}
use fk_cesis_mms.Accounts.Store.{
  ParentAccount, MagicLinkToken, Store, get_or_create, attach_claimed_email_apps_to_parent,
  check_rate, record_send,
}

abbrev pub same_account : Option ℕ → ℕ → Bool
same_account none key = false
same_account (some k) key = k == key

abbrev pub find_account : ℕ → List ParentAccount → Option ParentAccount
find_account key [] = none
find_account key (a ∷ accounts) =
    let rest = find_account key accounts in if a.pk == key then some a else rest

module _ (hash : Text → Text) where
  abbrev pub new_token : ℕ → Option ℕ → Text → Text → ℕ → MagicLinkToken
  new_token key account_id email raw expires = record {
    pk = key;
    account_id = account_id;
    claimed_email = email;
    token_hash = hash raw;
    expires_at = expires;
    sent_at = none;
    used_at = none;
  }

  abbrev pub add_token : Option ℕ → Text → Text → ℕ → Store → Store
  add_token account_id email raw expires store = record store {
    tokens = store.tokens ++ new_token store.next_pk account_id email raw expires ∷ [];
    next_pk = suc store.next_pk;
  }

  -- A token of the account that is neither used nor sent nor expired.
  abbrev pub is_active_for : ℕ → ℕ → MagicLinkToken → Bool
  is_active_for account_id now t =
      same_account t.account_id account_id
      && (not (is_some t.used_at) && (not (is_some t.sent_at) && ltb now t.expires_at))

  -- `issue_magic_link`, with the lifetime in seconds.
  unfoldable pub issue_magic_link : ℕ → ParentAccount → Text → ℕ → Store → Result Text × Store
  issue_magic_link ttl account raw now store =
      if any (is_active_for account.pk now) store.tokens
      then (err active_token_exists, store)
      else (ok raw, add_token (some account.pk) [] raw (now + ttl) store)

  -- `issue_magic_link_for_email`
  unfoldable pub issue_magic_link_for_email : ℕ → Text → Text → ℕ → Store → Result Text × Store
  issue_magic_link_for_email ttl email raw now store =
      (ok raw, add_token none email raw (now + ttl) store)

  abbrev pub update_token :
      ℕ → (MagicLinkToken → MagicLinkToken) → List MagicLinkToken → List MagicLinkToken
  update_token key f [] = []
  update_token key f (t ∷ tokens) = (if t.pk == key then f t else t) ∷ update_token key f tokens

  abbrev pub find_token : (MagicLinkToken → Bool) → List MagicLinkToken → Option MagicLinkToken
  find_token p [] = none
  find_token p (t ∷ tokens) = let rest = find_token p tokens in if p t then some t else rest

  -- An unused token of the raw text.
  abbrev pub is_open : Text → MagicLinkToken → Bool
  is_open raw t = text_eq t.token_hash (hash raw) && not (is_some t.used_at)

  -- `send_magic_link`, as far as the store goes.
  unfoldable pub send_magic_link : ℕ → ParentAccount → Text → ℕ → Store → Result (Unit {0}) × Store
  send_magic_link limit account raw now store =
      let (full, store') = check_rate limit account.email now store in
      if full
      then (err rate_limit_exceeded, store')
      else (elim (find_token (λ t. same_account t.account_id account.pk && is_open raw t)
          store'.tokens) [
            | none ↦ (err does_not_exist, store')
            | some t ↦ (
              ok tt,
              record_send account.email now (record store' {
                tokens = update_token t.pk (λ x. record x { sent_at = some now }) store'.tokens;
              }),
            )
          ])

  -- The same for a claimed address, `send_magic_link_for_claimed_email`.
  unfoldable pub send_magic_link_for_claimed_email :
      ℕ → Text → Text → ℕ → Store → Result (Unit {0}) × Store
  send_magic_link_for_claimed_email limit email raw now store =
      let (full, store') = check_rate limit email now store in
      if full
      then (err rate_limit_exceeded, store')
      else (elim (find_token
          (λ t. not (is_some t.account_id) && (text_eq t.claimed_email email && is_open raw t))
          store'.tokens) [
            | none ↦ (err does_not_exist, store')
            | some t ↦ (
              ok tt,
              record_send email now (record store' {
                tokens = update_token t.pk (λ x. record x { sent_at = some now }) store'.tokens;
              }),
            )
          ])

  abbrev pub spend : ℕ → ℕ → MagicLinkToken → MagicLinkToken
  spend now account_id t = record t { used_at = some now; account_id = some account_id }

  -- The token of a claimed address: its account is found or made, and its drafts are attached.
  abbrev pub consume_claimed : MagicLinkToken → ℕ → Store → Result ParentAccount × Store
  consume_claimed t now store =
      if is_blank t.claimed_email
      then (err token_without_email, store)
      else (let (account, store') = get_or_create t.claimed_email store in
          let store'' = record store' {
            tokens = update_token t.pk (spend now account.pk) store'.tokens;
          } in
          (ok account, attach_claimed_email_apps_to_parent t.claimed_email account store''))

  -- The token of an account.
  abbrev pub consume_owned :
      MagicLinkToken → ParentAccount → ℕ → Store → Result ParentAccount × Store
  consume_owned t account now store =
      if not account.is_active then (err account_inactive, store) else (
        ok account,
        record store { tokens = update_token t.pk (spend now account.pk) store.tokens },
      )

  -- `consume_magic_link`
  unfoldable pub consume_magic_link : Text → ℕ → Store → Result ParentAccount × Store
  consume_magic_link raw now store = elim (find_token (is_open raw) store.tokens) [
    | none ↦ (err invalid_token, store)
    | some t ↦ if ltb t.expires_at now then (err token_expired, store) else (elim t.account_id [
      | none ↦ consume_claimed t now store
      | some k ↦ elim (find_account k store.accounts) [
        | none ↦ (err does_not_exist, store)
        | some account ↦ consume_owned t account now store
      ]
    ])
  ]
