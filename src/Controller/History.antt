-- ===== src/Controller/History.antt =====
-- The retained history of the delay controller: what holds of it whatever calls are made.
pub mod Fits
pub mod Invariant
pub mod Reachable
pub mod Cuts
pub mod Rolls
