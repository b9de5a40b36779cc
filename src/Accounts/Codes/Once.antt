-- ===== src/Accounts/Codes/Once.antt =====
-- What a second use of a code does, and what `is_one_time_code_valid` foretells.
use fk_cesis_mms.Base.{
  ℕ, suc, ◌≡◌, refl, sym, ap, ◌∙◌, ◌↔◌, inl, inr, true, false, Option, none, some, List, [], ◌∷◌,
  ◌++◌, arith, ltb, ◌==◌, is_some, Bool-cases, Option-cases, ==_refl, if◌then◌else◌,
}
use mathlib.Core.Path.{subst}
use fk_cesis_mms.Base.Text.{Text, text_eq}
use fk_cesis_mms.Errors.{Result, ok, err, invalid_code, code_expired}
use fk_cesis_mms.Billing.Draft.Laws.{text_eq_refl}
use fk_cesis_mms.Accounts.Store.{
  ParentAccount, VerificationCode, Store, find_email, new_account, get_or_create,
}
use fk_cesis_mms.Accounts.Codes.{
  matches, find_code, find_unused, mark_used, is_replay, use_code, returned, verify_one_time_code,
  is_one_time_code_valid,
}

find_email-append :
    (email : Text) (accounts : List ParentAccount) (a : ParentAccount)
    → find_email email accounts ≡ none
    → text_eq a.email email ≡ true
    → find_email email (accounts ++ a ∷ []) ≡ some a
find_email-append email [] a h e = rw e refl
find_email-append email (b ∷ accounts) a h e = elim (Bool-cases (text_eq b.email email)) [
  | inl f ↦ absurd (cc (rw f at h))
  | inr f ↦ rw f (find_email-append email accounts a (rw f at h) e)
]

get_or_create-found :
    (email : Text) (store : Store) (a : ParentAccount)
    → find_email email store.accounts ≡ some a
    → get_or_create email store ≡ (a, store)
unfolding get_or_create
get_or_create-found email store a e = ground (arith, e)

get_or_create-made :
    (email : Text) (store : Store)
    → find_email email store.accounts ≡ none
    → get_or_create email store ≡ (
      new_account store.next_pk email,
      record store {
        accounts = store.accounts ++ new_account store.next_pk email ∷ [];
        next_pk = suc store.next_pk;
      },
    )
unfolding get_or_create
get_or_create-made email store e = ground (arith, e)

-- The account is stored afterwards, and the codes are those of before.
abbrev IsKept : Text → Store → ParentAccount × Store → Type 0
IsKept email store out =
    (find_email email out.1.accounts ≡ some out.0) × (out.1.codes ≡ store.codes)

get_or_create-IsKept :
    (email : Text) (store : Store) → IsKept email store (get_or_create email store)
get_or_create-IsKept email store = elim (Option-cases (find_email email store.accounts)) [
  | inr (a, e) ↦ subst (IsKept email store) (sym (get_or_create-found email store a e)) (e, refl)
  | inl e ↦ subst (IsKept email store) (sym (get_or_create-made email store e)) (
    find_email-append email store.accounts (new_account store.next_pk email) e (text_eq_refl email),
    refl,
  )
]

module _ (hash : Text → Text) (email code : Text) (origin : Option Text) where
  -- A row after the use of the code with that key.
  abbrev used_row : ℕ → ℕ → VerificationCode → VerificationCode
  used_row key now r = if r.pk == key then record r { used_at = some now } else r

  matches-used :
      (key now : ℕ) (r : VerificationCode)
      → matches hash email code origin (used_row key now r) ≡ matches hash email code origin r
  matches-used key now r = elim (Bool-cases (r.pk == key)) [ inl e ↦ rw e refl | inr e ↦ rw e refl ]

  find-used :
      (key now : ℕ) (codes : List VerificationCode) (r : VerificationCode)
      → find_code hash email code origin codes ≡ some r
      → find_code hash email code origin (mark_used hash key now codes) ≡ some (used_row key now r)
  find-used key now [] r h = absurd (cc)
  find-used key now (s ∷ codes) r h =
      let same = matches-used key now s in
      elim (Bool-cases (matches hash email code origin s)) [
        | inl e ↦
            let is : s ≡ r = cc (rw e at h) in rw (same, e) (ap (λ x. some (used_row key now x)) is)
        | inr e ↦ rw (same, e) (find-used key now codes r (rw e at h))
      ]

  find-unused :
      (codes : List VerificationCode) (r : VerificationCode)
      → find_code hash email code origin codes ≡ some r
      → r.used_at ≡ none
      → find_unused hash email code origin codes ≡ some r
  find-unused [] r h free = absurd (cc)
  find-unused (s ∷ codes) r h free = elim (Bool-cases (matches hash email code origin s)) [
    | inl e ↦ let is : s ≡ r = cc (rw e at h) in rw (e, is, free) refl
    | inr e ↦ rw e (find-unused codes r (rw e at h) free)
  ]

  module _ (store : Store) (r : VerificationCode)
      (found : find_code hash email code origin store.codes ≡ some r) where
    verify-expired :
        (now : ℕ)
        → ltb r.expires_at now ≡ true
        → verify_one_time_code hash email code origin now store ≡ (err code_expired, store)
    unfolding verify_one_time_code
    verify-expired now e = ground (arith, found, e)

    verify-first :
        (now : ℕ)
        → ltb r.expires_at now ≡ false
        → r.used_at ≡ none
        → verify_one_time_code hash email code origin now store ≡ use_code hash email now r store
    unfolding verify_one_time_code
    verify-first now e free = ground (arith, found, e, free)

    verify-replay :
        (now : ℕ)
        → ltb r.expires_at now ≡ false
        → is_some r.used_at ≡ true
        → is_replay hash origin r.origin_session_key ≡ true
        → verify_one_time_code hash email code origin now store
          ≡ returned hash (get_or_create email store)
    unfolding verify_one_time_code
    verify-replay now e spent again = ground (arith, found, e, spent, again)

    verify-spent :
        (now : ℕ)
        → ltb r.expires_at now ≡ false
        → is_some r.used_at ≡ true
        → is_replay hash origin r.origin_session_key ≡ false
        → verify_one_time_code hash email code origin now store ≡ (err invalid_code, store)
    unfolding verify_one_time_code
    verify-spent now e spent again = ground (arith, found, e, spent, again)

    -- Where the newest matching code is unused, is_one_time_code_valid says that it is valid
    -- exactly if verifying it at that time returns an account.
    pub valid_iff :
        (now : ℕ)
        → r.used_at ≡ none
        → (is_one_time_code_valid hash email code origin now store ≡ true) ↔ (
            (a : ParentAccount) × ((verify_one_time_code hash email code origin now store).0
              ≡ ok a))
    unfolding is_one_time_code_valid
    valid_iff now free = elim (Bool-cases (ltb r.expires_at now)) [
      | inl e ↦ (
        (λ valid. absurd (ground (arith, valid, e, find-unused store.codes r found free))),
        (λ (a, h). absurd (cc (rw (verify-expired now e) at h))),
      )
      | inr e ↦ (
        (λ valid. (_, ap (λ out. out.0) (verify-first now e free))),
        (λ _. ground (arith, e, find-unused store.codes r found free)),
      )
    ]

  -- The row after a use of the code, and the account that was returned.
  abbrev IsAfter : VerificationCode → ℕ → Result ParentAccount × Store → Type 0
  IsAfter r now (err e, store') = Unit
  IsAfter r now (ok a, store') =
      (find_email email store'.accounts ≡ some a)
      × ((s : VerificationCode) × (find_code hash email code origin store'.codes ≡ some s)
          × (is_some s.used_at ≡ true)
          × (s.expires_at ≡ r.expires_at)
          × (s.origin_session_key ≡ r.origin_session_key))

  used-fields :
      (now : ℕ) (r : VerificationCode)
      → (is_some (used_row r.pk now r).used_at ≡ true)
        × ((used_row r.pk now r).expires_at ≡ r.expires_at)
        × ((used_row r.pk now r).origin_session_key ≡ r.origin_session_key)
  used-fields now r = rw (==_refl r.pk) (refl, refl, refl)

  first-IsAfter :
      (now : ℕ) (r : VerificationCode) (store : Store)
      → find_code hash email code origin store.codes ≡ some r
      → IsAfter r now (use_code hash email now r store)
  first-IsAfter now r store found =
      let marked = record store { codes = mark_used hash r.pk now store.codes } in
      let (stored, codes) = get_or_create-IsKept email marked in
      let (spent, expires, bound) = used-fields now r in
      (
        stored,
        (
          used_row r.pk now r,
          ap (find_code hash email code origin) codes ∙ find-used r.pk now store.codes r found,
          spent,
          expires,
          bound,
        ),
      )

  replay-IsAfter :
      (now : ℕ) (r : VerificationCode) (store : Store)
      → find_code hash email code origin store.codes ≡ some r
      → is_some r.used_at ≡ true
      → IsAfter r now (returned hash (get_or_create email store))
  replay-IsAfter now r store found spent =
      let (stored, codes) = get_or_create-IsKept email store in
      (stored, (r, ap (find_code hash email code origin) codes ∙ found, spent, refl, refl))

  verify-IsAfter :
      (now : ℕ) (r : VerificationCode) (store : Store)
      → find_code hash email code origin store.codes ≡ some r
      → IsAfter r now (verify_one_time_code hash email code origin now store)
  verify-IsAfter now r store found = elim (Bool-cases (ltb r.expires_at now)) [
    | inl e ↦ subst (IsAfter r now) (sym (verify-expired store r found now e)) tt
    | inr e ↦ elim (Option-cases r.used_at) [
      | inl free ↦
          subst (IsAfter r now) (sym (verify-first store r found now e free))
            (first-IsAfter now r store found)
      | inr (at, used) ↦
          let spent : is_some r.used_at ≡ true = rw used refl in
          elim (Bool-cases (is_replay hash origin r.origin_session_key)) [
            | inl again ↦
                subst (IsAfter r now) (sym (verify-replay store r found now e spent again))
                  (replay-IsAfter now r store found spent)
            | inr over ↦
                subst (IsAfter r now) (sym (verify-spent store r found now e spent over)) tt
          ]
    ]
  ]

  -- What is stored after a call that returned.
  abbrev IsStored : VerificationCode → ParentAccount → Store → Type 0
  IsStored r a store' =
      (find_email email store'.accounts ≡ some a)
      × ((s : VerificationCode) × (find_code hash email code origin store'.codes ≡ some s)
          × (is_some s.used_at ≡ true)
          × (s.expires_at ≡ r.expires_at)
          × (s.origin_session_key ≡ r.origin_session_key))

  IsAfter-IsStored :
      (r : VerificationCode) (now : ℕ) (a : ParentAccount) (out : Result ParentAccount × Store)
      → out.0 ≡ ok a
      → IsAfter r now out
      → IsStored r a out.1
  IsAfter-IsStored r now a (err e, store') is after = absurd (cc)
  IsAfter-IsStored r now a (ok b, store') is (stored, row) =
      let same : b ≡ a = cc in (stored ∙ ap some same, row)

  module _ (now : ℕ) (r : VerificationCode) (store : Store) (a : ParentAccount)
      (found : find_code hash email code origin store.codes ≡ some r)
      (verified : (verify_one_time_code hash email code origin now store).0 ≡ ok a) where
    verified-IsStored : IsStored r a (verify_one_time_code hash email code origin now store).1
    verified-IsStored =
        IsAfter-IsStored r now a (verify_one_time_code hash email code origin now store) verified
          (verify-IsAfter now r store found)

    -- Where the newest matching code is bound to the session of the call, a verification that
    -- returned is followed by one that returns the same account and changes nothing, until the code
    -- expires.
    pub verify_again :
        (later : ℕ)
        → is_replay hash origin r.origin_session_key ≡ true
        → ltb r.expires_at later ≡ false
        → let store' = (verify_one_time_code hash email code origin now store).1 in
          verify_one_time_code hash email code origin later store' ≡ (ok a, store')
    verify_again later replay unexpired =
        let store' = (verify_one_time_code hash email code origin now store).1 in
        let (stored, (s, row, spent, expires, bound)) = verified-IsStored in
        verify-replay store' s row later (ap (λ t. ltb t later) expires ∙ unexpired) spent
          (ap (is_replay hash origin) bound ∙ replay)
        ∙ ap (returned hash) (get_or_create-found email store' a stored)
