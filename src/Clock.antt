-- ===== src/Clock.antt =====
-- The clock of a match: class TimeRef of src/referee.cpp and the halves, the kick-off and the cycle
-- of src/stadium.cpp.
pub mod Halves
pub mod Step
pub mod Others
pub mod Bounds
pub mod Score
pub mod Cycles
pub mod KickOff
