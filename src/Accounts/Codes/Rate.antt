-- ===== src/Accounts/Codes/Rate.antt =====
-- The limit on mails to one address within a minute.
use fk_cesis_mms.Base.{
  ℕ, suc, ◌≤◌, ◌≡◌, refl, inl, inr, Option, List, [], ◌∷◌, arith, leb, Bool-cases, count_if,
}
use fk_cesis_mms.Base.Text.{Text, text_eq}
use fk_cesis_mms.Errors.{ok}
use fk_cesis_mms.Billing.Draft.Laws.{text_eq_refl}
use fk_cesis_mms.Accounts.Store.{Store, is_recent, prune}
use fk_cesis_mms.Accounts.Codes.{issue_one_time_code, send_one_time_code_email}

-- After the pruning, the times of the address are the recent ones.
count-prune :
    (email : Text) (now : ℕ) (sends : List (Text × ℕ))
    → count_if (λ (to, at). text_eq to email) (prune email now sends)
      ≡ count_if (is_recent email now) sends
count-prune email now [] = refl
count-prune email now ((to, at) ∷ sends) = ground (arith, count-prune email now sends)

recent-prune :
    (email : Text) (now : ℕ) (sends : List (Text × ℕ))
    → count_if (is_recent email now) (prune email now sends) ≡ count_if (is_recent email now) sends
recent-prune email now [] = refl
recent-prune email now ((to, at) ∷ sends) = ground (arith, recent-prune email now sends)

module _ (hash : Text → Text) (limit ttl : ℕ) (email : Text) (origin : Option Text) (draw now : ℕ)
    (store : Store) where
  -- The log after the mail of an issued code.
  abbrev pub sent_log : List (Text × ℕ)
  sent_log =
      (send_one_time_code_email hash email now
        (issue_one_time_code hash limit ttl email origin draw now store).1).sends

  -- When a code was issued and its mail is sent at once, the log has one more mail to the address
  -- within the last minute than before the call, and at most as many as the limit allows.
  pub issue-send_bound :
      (code : Text)
      → (issue_one_time_code hash limit ttl email origin draw now store).0 ≡ ok code
      → (count_if (is_recent email now) sent_log ≡ suc (count_if (is_recent email now) store.sends))
        × (count_if (is_recent email now) sent_log ≤ limit)
  unfolding issue_one_time_code
  issue-send_bound code h =
      let kept = prune email now store.sends in
      let same = count-prune email now store.sends in
      let recent = recent-prune email now store.sends in
      let own = text_eq_refl email in
      elim (Bool-cases (leb limit (count_if (λ (to, at). text_eq to email) kept))) [
        | inl full ↦ absurd (cc (rw full at h))
        | inr free ↦ rw free (ground (arith, free, same, recent, own))
      ]
