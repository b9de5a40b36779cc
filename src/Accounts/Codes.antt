-- ===== src/Accounts/Codes.antt =====
-- One-time codes of apps/accounts/services.py. The digest `hash` is that of `hashlib`, and the drawn
-- number that of `secrets`.
pub mod Once
pub mod Rate
use fk_cesis_mms.Base.{
  ℕ, suc, ◌+◌, Bool, true, false, not, ◌&&◌, Option, none, some, List, [], ◌∷◌, ltb, ◌==◌,
  if◌then◌else◌, is_some,
}
use fk_cesis_mms.Base.Text.{Text, text_eq, padded}
use fk_cesis_mms.Errors.{Result, ok, err, rate_limit_exceeded, invalid_code, code_expired}
use fk_cesis_mms.Accounts.Store.{
  ParentAccount, VerificationCode, Store, iexact, get_or_create,
  attach_claimed_email_apps_to_parent, check_rate, record_send,
}

-- `_code_session_scope`
abbrev pub in_scope : Option Text → Option Text → Bool
in_scope none bound = not (is_some bound)
in_scope (some key) none = true
in_scope (some key) (some bound) = text_eq bound key

module _ (hash : Text → Text) where
  -- The row matches the address, the code and the session.
  abbrev pub matches : Text → Text → Option Text → VerificationCode → Bool
  matches email code origin r =
      iexact r.email email
      && (text_eq r.code_hash (hash code) && in_scope origin r.origin_session_key)

  abbrev pub find_code : Text → Text → Option Text → List VerificationCode → Option VerificationCode
  find_code email code origin [] = none
  find_code email code origin (r ∷ codes) =
      let rest = find_code email code origin codes in
      if matches email code origin r then some r else rest

  -- The same among unused codes, for `is_one_time_code_valid`.
  abbrev pub find_unused :
      Text → Text → Option Text → List VerificationCode → Option VerificationCode
  find_unused email code origin [] = none
  find_unused email code origin (r ∷ codes) =
      let rest = find_unused email code origin codes in
      if matches email code origin r && not (is_some r.used_at) then some r else rest

  abbrev pub new_code : ℕ → Text → Text → ℕ → Option Text → VerificationCode
  new_code key email code expires origin = record {
    pk = key;
    email = email;
    code_hash = hash code;
    expires_at = expires;
    used_at = none;
    origin_session_key = origin;
  }

  -- `issue_one_time_code`, for a drawn number below 10 ^ 6.
  unfoldable pub issue_one_time_code :
      ℕ → ℕ → Text → Option Text → ℕ → ℕ → Store → Result Text × Store
  issue_one_time_code limit ttl email origin draw now store =
      let (full, store') = check_rate limit email now store in
      let code = padded 6 draw in
      if full then (err rate_limit_exceeded, store') else (
        ok code,
        record store' {
          codes = new_code store'.next_pk email code (now + ttl) origin ∷ store'.codes;
          next_pk = suc store'.next_pk;
        },
      )

  -- `send_one_time_code_email`, as far as the limit goes.
  abbrev pub send_one_time_code_email : Text → ℕ → Store → Store
  send_one_time_code_email email now store = record_send email now store

  abbrev pub mark_used : ℕ → ℕ → List VerificationCode → List VerificationCode
  mark_used key now [] = []
  mark_used key now (r ∷ codes) =
      (if r.pk == key then record r { used_at = some now } else r) ∷ mark_used key now codes

  -- A used code may come again from the session that it is bound to.
  abbrev pub is_replay : Option Text → Option Text → Bool
  is_replay none bound = false
  is_replay (some key) none = false
  is_replay (some key) (some bound) = text_eq bound key

  abbrev pub returned : ParentAccount × Store → Result ParentAccount × Store
  returned (account, store) = (ok account, store)

  -- The first use of a code.
  abbrev pub use_code : Text → ℕ → VerificationCode → Store → Result ParentAccount × Store
  use_code email now r store =
      let (account, store') =
        get_or_create email (record store { codes = mark_used r.pk now store.codes }) in
      (ok account, attach_claimed_email_apps_to_parent email account store')

  -- `verify_one_time_code`
  unfoldable pub verify_one_time_code :
      Text → Text → Option Text → ℕ → Store → Result ParentAccount × Store
  verify_one_time_code email code origin now store =
      elim (find_code email code origin store.codes) [
        | none ↦ (err invalid_code, store)
        | some r ↦
            if ltb r.expires_at now
            then (err code_expired, store)
            else if is_some r.used_at
            then if is_replay origin r.origin_session_key
              then returned (get_or_create email store)
              else (err invalid_code, store)
            else use_code email now r store
      ]

  -- `is_one_time_code_valid`
  unfoldable pub is_one_time_code_valid : Text → Text → Option Text → ℕ → Store → Bool
  is_one_time_code_valid email code origin now store =
      elim (find_unused email code origin store.codes) [
        | none ↦ false
        | some r ↦ not (ltb r.expires_at now)
      ]
