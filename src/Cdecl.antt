-- ===== src/Cdecl.antt =====
-- The reader of C declarations c_code/expert_c/cdecl2.c, which says in English what a declaration
-- declares.
pub mod Token
pub mod States
pub mod Phrases
pub mod Reads
pub mod Pushes
pub mod Numbers
pub mod Suffixes
pub mod Says
pub mod Marks
pub mod Runs
pub mod Unnamed
mod Tests
