-- ===== src/Family.antt =====
-- backend/app/core/family.py: the family of a VM by its name, and Stage 3 of the planner, which
-- splits a group that holds too many members of one family.
pub mod Names
pub mod Split
pub mod Buckets
pub mod Sizes
pub mod Cap
pub mod Peers
pub use Names.*
pub use Split.*
