-- ===== src/Agreements/Effects.antt =====
-- What the services of apps/agreements/services.py do to the stored agreements: each call evolves
-- them, on every branch.
pub mod Save
pub mod Signing
pub mod Sending
pub mod Fresh
pub mod Create
pub mod Others
pub mod Ends
pub mod Amend
