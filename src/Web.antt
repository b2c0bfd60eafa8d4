-- ===== src/Web.antt =====
-- The client c_code/unp/web/web.c, which gets files of a server over connections that it opens without
-- waiting for them.
pub mod State
pub mod Connect
pub mod Main
pub mod Files
pub mod Sound
pub mod Ready
pub mod Runs
pub mod Gets
mod Tests
