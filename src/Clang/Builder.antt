-- ===== src/Clang/Builder.antt =====
-- `MsgBuilder` (rcss/clang/clangmsgbuilder.cpp): a stack of items, which the actions of the grammar
-- push and pop, and the message that they end with.
pub mod Machine
pub mod Regions
pub mod Actions
pub mod Conditions
pub mod Rules
pub mod Messages
