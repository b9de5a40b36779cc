-- ===== src/Agreements/Laws.antt =====
-- What the calls of apps/agreements/services.py guarantee.
pub mod Guards
pub mod Notices
pub mod Signs
pub mod Sends
pub mod Sets
pub mod Delivers
pub mod Ends
pub mod Leaves
pub mod Holds
