-- ===== src/Accounts.antt =====
-- apps/accounts/services.py: magic links, one-time codes and the accounts of parents.
pub mod Store
pub mod Codes
pub mod Links
pub mod Email
mod Tests
