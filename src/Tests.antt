-- ===== src/Tests.antt =====
-- Concrete runs: a runtime, a contract, an embedder and a cursor codec, with the theorems applied
-- to them.
pub mod Fixtures
pub mod Stores
pub mod Sharing
pub mod Recalling
pub mod Recovering
pub mod Tiers
pub mod Lifecycles
pub mod Databases
pub mod Items
pub mod Forgetting
pub mod Restoring
pub mod Accessing
pub mod Consolidating
