-- ===== src/Lib.antt =====
-- A verification library for the three simple shells of this repository (a1, a2 and a3), which are C
-- programs that grow out of one another: a shell with variables and scripts, a shell with paged
-- processes and schedulers, and a shell with a file system.
--
-- Parts, and the files that model them:
--   * Base: shared types. Strings are lists of byte codes without the closing zero (Base/Text), the
--     functions of the C library that the shells use are in Base/CLib, and the calls of the operating
--     system (system, mkdir, chdir, stat, fopen with its reads and writes) are an interface `Os W` over a
--     state `W` of the machine outside (Base/System).
--   * Store: the array of key and value pairs that a1/shellmemory.c, a2/shellmemory.c and
--     a3/shellmemory.c each keep. A slot whose key is "none" is free, as in the C code; a shell gives
--     the index at which its loops start. Store/Search and Store/Update hold its lemmas.
--   * A1: a1. Memory is shellmemory.c, Input is `parseInput` of shell.c, Interpreter is interpreter.c
--     with one function for each command; a command's end is an `Outcome` (a return value and the new
--     state, a call of `exit`, undefined behaviour, or no fuel).
--   * A2: a2. State has the global variables, Memory is shellmemory.c, Pcb is pcb.c, Queue is
--     ready_queue.c, Kernel/Load and Kernel/Schedule are kernel.c, Interpreter is interpreter.c, Input is
--     `parseInput` of shell.c. Operations are state passing functions `Cmd W A` composed by do blocks.
--     A pointer to a page is its address in the list of pages; a pointer to a node of the ready queue is
--     its position, and following a null pointer is `none` or `fault`.
--   * A3: a3. LinkedList is linked_list.c on a heap of nodes, with the dummy nodes at both ends; a heap
--     holds a list when its nodes are linked in both directions (Rep of LinkedList/Refine). Memory is
--     shellmemory.c, State the globals of kernel.c, Pcb is pcb.c, and Kernel is cpu.c and kernel.c
--     with the two schedulers in Kernel/Schedule. Input is `parseInput` of shell.c, where the text that
--     strtok goes on from is a part of the state; Commands and Interpreter are interpreter.c. Cache is
--     fs/cache.c: a block is the list of its bytes, the device a map from sectors to blocks. Inode is fs/inode.c over
--     the cache: contents are a map from sectors to blocks that the cache and the device hold together;
--     Inode/Reserve takes sectors from the free map (FreeMap is fs/free-map.c over a bitmap) and gives them
--     back, and Inode/Open is the list of open inodes. InodeStore is what the files above inode.c call of
--     it, as an interface over a state, with the laws its clients rely on (InodeStore/Laws). Inode/Open fills
--     the interface, and Inode/Lawful the laws, on files that their direct blocks hold; Inode/Sample is a
--     disk with one such file, for runs. Over it, Directory is
--     fs/directory.c, Files is fs/file.c, Filesys is fs/filesys.c and Filesys/Util is fs/fsutil.c, with
--     their state in FsState: directories and files are at addresses in a heap, where a freed one is gone.
--     FsUtil is a part of fs/fsutil2.c.
--
-- Bounds and fuel: the interpreter of a1 is on fuel, a round for each `if` or `run` inside another; a
-- script may run itself, so no bound is enough for every script. The loop of `run` gets the length of
-- the text and two, since each round reads a byte at least or ends. The sort of a2 gets two rounds of
-- length + 1 steps: the position it begins at is not set back, so the second round ends at once.
-- `parseInput` of a2 and the schedulers of a2 and a3 are on fuel, a round for each turn of their loops,
-- because nothing in the code bounds them. A search in a list of a3 gets a round more than the list has
-- nodes. `parseInput` and `interpreter` of a3 are on fuel, since a script may run itself. The clock of
-- cache.c gets a round more than the cache has entries: each round before the last uses up an access bit.
-- inode_read_at gets a round more than it reads bytes. The loops over the entries of a directory get a
-- round more than its inode has room for entries, and the loop of fsutil_cat two rounds, of which the
-- first reads the whole file. The listing of fsutil_ls is on fuel. An overrun of a buffer is `fault`, and
-- in a3/fs no result (`none`), as a failed ASSERT and the use of freed memory are. Two overruns are not
-- modelled, since every call has them, and the bytes behind the buffer are taken for free ones: that of
-- pid_string in allocate_frame of a2/shellmemory.c, and that of the copies of a path of one name in
-- filesys_create and filesys_remove of a3/fs/filesys.c.
--
-- Not modelled: the functions `main`, which prompt and read from the terminal; output for debugging;
-- calls of `free`, but for the one of a literal in mem_free_line and those in a3/fs; failure of an
-- allocation in a3/fs; of a3/fs/free-map.c and a3/fs/filesys.c what starts, formats and ends the file
-- system; find_file, fragmentation_degree, defragment and recover of a3/fs/fsutil2.c; the device, which is
-- a map from every sector number to a block, without the panic of block.c behind its end, and the
-- list and bitmap of the Pintos library, of which the bitmap is a parameter. The calls that
-- a3/interpreter.c makes of the file system are an interface (A3/FileSystem).
mod Base
pub mod Store
pub mod A1
pub mod A2
pub mod A3
