-- ===== src/Stadium.antt =====
-- `Stadium` (src/stadium.cpp) where it brings the referees and the players together.
pub mod Cards
pub mod Actions
pub mod Offside
