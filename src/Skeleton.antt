-- ===== src/Skeleton.antt =====
-- backend/app/core/wave_skeleton.py: the mechanical assignment of groups to waves.
pub mod Wave
pub mod HaFamily
pub mod Oversized
pub mod Order
pub mod Packing
pub mod Assign
