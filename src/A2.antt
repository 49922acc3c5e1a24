-- ===== src/A2.antt =====
-- The second shell, a2: paged memory, processes, the ready queue, the schedulers and the commands.
pub mod State
pub mod Memory
pub mod Pcb
pub mod Queue
pub mod Kernel
pub mod Input
pub mod Interpreter
mod Tests
