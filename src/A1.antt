-- ===== src/A1.antt =====
-- The first shell, a1: variables, the splitting of a line into words, and the commands.
pub mod Memory
pub mod Input
pub mod Shell
pub mod Interpreter
mod Tests
