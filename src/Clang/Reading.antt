-- ===== src/Clang/Reading.antt =====
-- The semantic actions of the grammar (rcss/clang/coach_lang_parser.ypp): the calls that the reading
-- of each value makes, in the order of the text, and what the calls leave on the builder's stack.
pub mod Parts
pub mod Rules
pub mod Fits
pub mod Yields
pub mod Points
pub mod Acts
pub mod Conds
pub mod Nested
pub mod Whole
pub mod Message
pub mod Faults
