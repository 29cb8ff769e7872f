-- ===== src/Timer.antt =====
-- The synchronous timer (src/synctimer.cpp), which `src/main.cpp` runs in synch mode.
pub mod Ticks
pub mod Alternate
pub mod Rate
