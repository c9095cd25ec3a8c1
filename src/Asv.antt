-- ===== src/Asv.antt =====
-- `AsvExplainer` and its exact methods (src/asv.rs).
pub mod ParentsMask
pub mod Exact
pub mod Auto
pub mod Dispatch
pub mod Answers
pub mod Labels
pub mod Quality
pub mod Approximate
pub mod Runs
