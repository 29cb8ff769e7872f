-- ===== src/Match.antt =====
-- The match that src/stadium.cpp keeps and that the referees of src/referee.cpp act on: its state,
-- the change of play mode, and the calls by which a referee changes the match.
pub mod State
pub mod ModeChange
pub mod Frame
