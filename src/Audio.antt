-- ===== src/Audio.antt =====
-- What a player hears (src/audio.cpp, src/player.cpp).
pub mod State
pub mod Ears
pub mod Cycle
pub mod Getting
pub mod Order
pub mod Capacity
