-- ===== src/A2/Kernel.antt =====
-- a2/kernel.c: loading pages, running a process for some lines, and the schedulers.
pub mod Load
pub mod Schedule
