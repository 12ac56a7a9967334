-- ===== src/Performance.antt =====
-- src/modules/performance: review cycles, reviews, peer feedback and goals.
pub mod Defs
pub mod Cycles
pub mod Reviews
pub mod Goals
pub mod Sound
pub mod Launched
pub mod Closed
