-- ===== src/Shootout.antt =====
-- The penalty shoot-out: class PenaltyRef of src/referee.cpp.
pub mod Scoring
pub mod Events
pub mod Analyse
pub mod Outcome
pub mod Steady
pub mod Tally
pub mod Invariant
pub mod Rulings
pub mod Cycle
pub mod Run
pub mod Verdict
