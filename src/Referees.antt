-- ===== src/Referees.antt =====
-- The referees of a running match (src/referee.cpp), but `TimeRef` and `PenaltyRef`.
pub mod View
pub mod Awards
pub mod Faults
pub mod Kicks
pub mod Ball
pub mod Training
pub mod Steady
pub mod FaultsSteady
pub mod KicksSteady
pub mod Goals
pub mod Over
pub mod Waits
pub mod Possession
pub mod Touching
pub mod TouchFrame
pub mod Indirect
pub mod SecondKick
pub mod Strongest
pub mod Catching
pub mod BackPass
pub mod Offside
pub mod OffsideLaw
pub mod OffsideCalls
pub mod Fouls
pub mod Taking
pub mod DoubleKick
pub mod Retaken
