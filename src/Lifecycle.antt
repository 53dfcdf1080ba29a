-- ===== src/Lifecycle.antt =====
-- Consolidation and forgetting: memory/consolidator.go and memory/scoped_lifecycle.go.
pub mod Paging
pub mod Collected
pub mod Rounds
pub mod OneKind
pub mod Consolidator
pub mod WorkingAlone
pub mod Names
pub mod Forgotten
pub mod Counting
pub mod Promotion
pub mod Copies
pub mod Forgetting
pub mod PairSort
pub mod Victims
pub mod ScopedStatistics
pub mod Marks
pub mod TwoTiers
pub mod Kept
pub mod Succeeds
pub mod Consolidated
