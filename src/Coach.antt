-- ===== src/Coach.antt =====
-- The messages of an online coach (src/coach.cpp, `OnlineCoach`): how many it may say, the queue in
-- which they wait, and when the queue is sent.
pub mod State
pub mod Say
pub mod Queue
pub mod Budget
pub mod Events
pub mod Freeform
