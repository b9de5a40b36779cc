-- ===== src/Agreements.antt =====
-- apps/agreements/services.py: the agreements of members, from their creation to their end.
pub mod Clock
pub mod Number
pub mod Create
pub mod Signing
pub mod Signed
pub mod Setup
pub mod Amend
pub mod States
pub mod Rows
pub mod Effects
pub mod Run
pub mod Laws
mod Tests
