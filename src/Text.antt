-- ===== src/Text.antt =====
-- Programs on lines of text, in c_code.
pub mod Reverse
mod Tests
