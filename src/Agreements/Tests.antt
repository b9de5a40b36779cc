-- ===== src/Agreements/Tests.antt =====
-- Runs of apps/agreements on concrete rows: a clock whose years are a hundred ticks long, and a
-- family of two members.
pub mod Signs
use fk_cesis_mms.Base.{
  ℕ, suc, ◌*◌, ◌/◌, ◌≡◌, refl, true, false, none, some, List, [], ◌∷◌, Option, arith,
}
use fk_cesis_mms.Base.Text.{Text, codes}
use fk_cesis_mms.Errors.{ok}
use fk_cesis_mms.Models.{
  Agreement, AgreementState, generated, signed, electronic, paper, Actor, Db, Member,
  find_agreement, find_plan,
}
use fk_cesis_mms.Models.Action.{Unchanged}
use fk_cesis_mms.Billing.Calendar.{Date}
use fk_cesis_mms.Billing.Plan.{MembershipPlan}
use fk_cesis_mms.Billing.Tests.{
  plan, october, today, member_of, first_agreement, first_draft, db_with,
}
use fk_cesis_mms.Agreements.Clock.{Clock}
use fk_cesis_mms.Agreements.Number.{number_for, next_agreement_sequence_for_year, has_number}
use fk_cesis_mms.Agreements.Create.{create_agreement_for_member}
use fk_cesis_mms.Agreements.Signing.{mark_agreement_sent}
use fk_cesis_mms.Agreements.Amend.{discontinue_agreement}
use fk_cesis_mms.Agreements.States.{Succeeds}
use fk_cesis_mms.Agreements.Rows.Evolves.{IsSound}
use fk_cesis_mms.Agreements.Run.{
  Command, create, handle, regenerate, send, void, IsSoundHere, run, run-IsSound, run-Succeeds,
}
use fk_cesis_mms.Agreements.Laws.Holds.{Holds, create-Holds}
use fk_cesis_mms.Agreements.Laws.Sends.{IsSent, send-IsSent}

abbrev clock : Clock
clock = record {
  year_start = λ year. year * 100;
  local_date = λ t. record { year = t / 100; month = 9; day = 21 };
  starts = λ t. omega arith;
  ends = λ t. omega arith;
}

abbrev now : ℕ
now = 202605

abbrev first_day : ℕ
first_day = 202601

-- Not yet signed, and with no number.
abbrev pending : Agreement
pending = record first_agreement {
  state = generated;
  agreement_number = none;
  sent_at = none;
  signed_at = none;
  generated_at = first_day;
}

abbrev in_force : Agreement
in_force = record first_agreement { agreement_number = none; generated_at = first_day }

abbrev empty : Db
empty = record (db_with []) { agreements = [] }

abbrev pending_db : Db
pending_db = record (db_with (first_draft ∷ [])) { agreements = pending ∷ [] }

abbrev in_force_db : Db
in_force_db = record (db_with (first_draft ∷ [])) { agreements = in_force ∷ [] }

pending_db-IsSound : IsSoundHere clock none true pending_db
pending_db-IsSound =
    ((tt, tt), ((omega arith, (λ past. absurd (cc)), (λ year sequence is. absurd (cc))), tt))

abbrev first_key : ℕ
first_key = 100

-- Two members get agreements, and one of these is sent, voided and replaced.
abbrev commands : List (Command × ℕ)
commands =
    (create 1 electronic, now)
    ∷ (create 2 paper, now)
    ∷ (handle first_key send, now)
    ∷ (handle first_key (void (codes "typo")), now)
    ∷ (regenerate 1 paper, now)
    ∷ []

run-IsSound_example : IsSoundHere clock none true (run clock none true commands empty)
run-IsSound_example = run-IsSound clock none true commands empty (tt, tt)

abbrev pending_key : ℕ
pending_key = 11

abbrev later_commands : List (Command × ℕ)
later_commands = (handle pending_key send, now) ∷ (handle pending_key (void []), now) ∷ []

run-Succeeds_example :
    (b : Agreement) × (find_agreement pending_key
        (run clock none true later_commands pending_db).agreements
      ≡ some b)
    × Succeeds pending b
run-Succeeds_example =
    run-Succeeds clock none true later_commands pending_db pending_key pending pending_db-IsSound
      refl

create-Holds_example :
    Holds clock none 2 electronic now pending_db pending_db-IsSound
      (create_agreement_for_member clock none 2 electronic now pending_db)
create-Holds_example = create-Holds clock none 2 electronic now pending_db pending_db-IsSound

abbrev note : Text
note = codes "new address"

send-IsSent_example :
    IsSent now pending (codes "a@b.lv") [] (mark_agreement_sent pending now pending_db)
send-IsSent_example =
    send-IsSent now pending (member_of 1) pending_db refl refl refl (λ box item. refl)
