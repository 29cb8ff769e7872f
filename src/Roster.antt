-- ===== src/Roster.antt =====
-- The players of a team and their types (src/team.cpp), and the substitutions that an online coach
-- asks for (src/coach.cpp).
pub mod State
pub mod Team
pub mod Change
pub mod Presence
pub mod Counts
pub mod Guards
pub mod Bounds
pub mod Session
pub mod GoalieCounts
pub mod Goalies
