-- ===== src/Agreements/Rows.antt =====
-- What holds of the stored agreements: the order of their states, what a call may change in a row,
-- and the rows that the constraints of apps/agreements/models.py allow.
pub mod Distinct
pub mod Numbers
pub mod Evolves
pub mod Quiet
pub mod Current
