-- ===== src/Cvm.antt =====
-- The control program of virtual machines, c_code/cvm/cvm.c: it reads a command and its arguments
-- from its input, runs commands of the shell, talks to the monitor of a machine over a socket, and
-- prints the answer.
pub mod State
pub mod Host
pub mod Rate
pub mod Machine
pub mod Template
pub mod Power
pub mod Images
pub mod Transfer
pub mod Backup
pub mod Disk
pub mod Bridge
pub mod Main
mod Tests
