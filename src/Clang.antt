-- ===== src/Clang.antt =====
-- The coach language (rcss/clang): the values that messages are made of, the builder that the
-- grammar drives, the calls that reading a value makes, and what they build.
pub mod Syntax
pub mod Builder
pub mod Reading
