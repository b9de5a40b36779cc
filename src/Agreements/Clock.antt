-- ===== src/Agreements/Clock.antt =====
-- The local time of the server (`django.utils.timezone`), which the services of agreements read:
-- when a year starts, and the date at a time. A time lies in the year of its date.
use fk_cesis_mms.Base.{ℕ, suc, ◌≤◌, ◌<◌}
use fk_cesis_mms.Billing.Calendar.{Date}

pub record Clock : Type 0 where
  pub year_start : ℕ → ℕ
  pub local_date : ℕ → Date
  pub starts : (t : ℕ) → year_start (local_date t).year ≤ t
  pub ends : (t : ℕ) → t < year_start (suc (local_date t).year)
