-- ===== src/Scenarios.antt =====
-- Concrete matches: tests of the definitions, and the theorems at inputs that meet their hypotheses.
pub mod Matches
mod Shootouts
mod Clocks
mod Timers
mod Referees
mod Catches
mod Touches
mod Kicks
mod Commands
mod Offsides
mod Listeners
mod Messages
mod Rosters
mod Coaches
