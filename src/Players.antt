-- ===== src/Players.antt =====
-- The commands of a player (src/player.cpp, src/leg.cpp): what they may do, and when.
pub mod Body
pub mod Commands
pub mod Tackles
pub mod Views
pub mod Runs
pub mod Limits
pub mod Held
pub mod Release
