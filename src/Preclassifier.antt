-- ===== src/Preclassifier.antt =====
-- backend/app/core/preclassifier.py: how the VMs of an inventory become groups.
pub mod Source
pub mod Roles
pub mod Risk
pub mod Ha
pub mod Build
pub mod Merge
pub mod Cluster
pub mod Classify
pub mod Formed
pub mod Consolidated
pub mod Clusters
pub mod Ungrouped
pub mod Whole
pub mod Result
pub mod Members
pub mod Kept
