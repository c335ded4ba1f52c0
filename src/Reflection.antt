-- ===== src/Reflection.antt =====
-- The reflection engine of app/reflection: when to reflect, on which events, and what is stored.
pub mod Pair
pub mod Traits
pub mod State
pub mod Scheduler
