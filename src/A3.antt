-- ===== src/A3.antt =====
-- The third shell, a3: its doubly linked lists, its memory, its processes and its kernel.
pub mod LinkedList
pub mod Memory
pub mod State
pub mod Pcb
pub mod Kernel
pub mod Input
pub mod FileSystem
pub mod Commands
pub mod Interpreter
pub mod Cache
pub mod Inode
pub mod InodeStore
pub mod FreeMap
pub mod FsState
pub mod Directory
pub mod Files
pub mod Filesys
pub mod FsUtil
mod Tests
