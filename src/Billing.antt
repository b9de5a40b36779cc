-- ===== src/Billing.antt =====
-- apps/billing: money, billing months, the installment schedule, the family discount, and the
-- services over billing records.
pub mod Money
pub mod Calendar
pub mod Plan
pub mod Month
pub mod Schedule
pub mod Family
pub mod Store
pub mod Draft
pub mod Records
pub mod Reassign
pub mod Discontinue
pub mod Tests
