-- ===== src/Lib.antt =====
-- mini-unix: parts of a small 32-bit kernel, their models and what is proved of them.
--
-- The program. The kernel's library (kernel/lib) has bitmaps, circular doubly linked lists and the
-- memory and string routines of C. kernel/mm/heap.c hands out memory to the file systems, and resizes
-- it. kernel/proc/process.c keeps the table of open files of a process, through which the virtual file
-- system (kernel/fs) finds the file behind a descriptor. kernel/dev/keyboard.c buffers the keys that
-- its interrupt handler reads until the reader asks for them. Above these stand the system calls, the
-- terminal and a shell. kernel/init/kernel.c starts all of them, and kernel/lib/panic.c ends them.
--
-- The files.
--   Bitmap: kernel/lib/bitmap.c. A `struct bitmap *` is an `Option Bitmap`, the array of bytes a list
--     or `none` for NULL. The operations return the bitmap they leave behind. Query holds the searches,
--     counts and tests of ranges; the other children prove what the operations do to single bits.
--   LinkedList: kernel/lib/list.c and two iterators of include/lib/list.h. A node is an address; the
--     memory maps it to its `next` and `prev`; an access through NULL ends a program with `none`.
--     LinkedList/Ring says when a head and a list of entries form a ring, Cut opens a ring at a place,
--     and the other children go through the operations.
--   Memory: the mem functions of kernel/lib/string.c over a byte memory, and in Memory/Strings `strcpy`
--     and `strncpy`. Text: `strlen`, `strcmp` and `strncmp` of the same file over the bytes of a string.
--   Heap: kernel/mm/heap.c: the three pointers and the memory behind them.
--   Process: kernel/proc/process.c, with the memory behind the array of files.
--   Keyboard: the buffer, table and interrupt handler of kernel/dev/keyboard.c. Keyboard/Start connects
--     it, Keyboard/Runs has runs of interrupts and reads in any order.
--   Files: kernel/fs/file.c: open files in the heap and their references to vnodes.
--   Screen: kernel/dev/tty.c over the cells of the video memory of kernel/dev/vga.c;
--     Screen/Hardware the cursor that is shown.
--   Vfs: the table of file systems and the lookup of paths of kernel/fs/vfs.c. The `lookup` functions of
--     the file systems are a parameter, found by the address of a vnode's table of operations. Vfs/Names
--     says what the components of a path are, Vfs/Walk goes along them, Vfs/Registry is the table.
--     Vfs/Calls has the calls that change the state, Vfs/Calls/Streams those that read and write.
--     What the file systems keep is a parameter of them. Vfs/Calls/FileSystem is the interface that a
--     file system fills: its functions, what it may assume of them, and what it promises.
--   Tmpfs: kernel/fs/tmpfs/tmpfs.c, a file system in memory, over the state of Vfs/Calls. Tmpfs/Contents
--     reads and writes files, Tmpfs/Removal removes them. Tmpfs/Chain says which inodes a directory
--     links, Tmpfs/Directory which children it has. Tmpfs/Mounted fills the interface of
--     Vfs/Calls/FileSystem, Tmpfs/Growth makes files longer, and Tmpfs/Mounting, Root and FirstFile go
--     from the registered file system to its first file.
--   Syscalls: the dispatch and the calls of kernel/proc/syscalls.c, as clients of Vfs/Calls;
--     Syscalls/User has the functions that a program calls, Syscalls/Storage a program and tmpfs together.
--   Gdt: kernel/arch/x86/gdt.c. Pic: kernel/arch/x86/pic.c. Interrupts: the table of handlers and the
--     dispatch of kernel/arch/x86/interrupts.c; Interrupts/Idt the gates of kernel/arch/x86/idt.c;
--     Interrupts/Timer the clock of kernel/dev/timer.c.
--   Print: kernel/lib/print.c, whose output goes to the Screen. Panic: kernel/lib/panic.c and assert.c.
--   Boot: kernel/init/kernel.c, over the interrupts, the devices and the heap.
--   Terminal: the line and the commands of kernel/dev/terminal.c.
--   Shell: reading, splitting and running a line in user/shell.c. Shell/Libc has the functions of the C
--     library as parameters, Shell/Builtins the commands of user/commands.c, Shell/Output what they
--     print, Shell/Loop the start of programs and the loop over the lines, Shell/Endings that all of
--     these loops end, and Shell/Session the runs of the last one.
--   Errno: include/kernel/errno.h, and results that are a value or an error number.
--   Base: the names, tests and lemmas that the others share.
--
-- Conventions. `size_t`, `uint32_t` and addresses have 32 bits, and sums of them wrap where the source
-- lets them; a `uint8_t` is a number below 256. A `size_t` that a function returns as an `ssize_t` is
-- the same word, which is negative from 2^31 on. A counting loop is a function that recurs on the
-- number of rounds left, which its caller gives it from the loop's bound, so no result depends on fuel.
-- The exceptions are the iterators of lists and the searches of tmpfs, whose end depends on the memory:
-- they take fuel, and on a well-formed list more rounds than it has entries are enough; the loop of
-- `vfs_lookup`, for which one round more than the path has characters is enough; and the digits of
-- `print_unsigned`, which has the 32 rounds that its buffer has room for. The endless loop of the
-- kernel's `shell_launch` takes the number of rounds to look at, and the count of the arguments in
-- `shell_execute` one round more than there are words. The shell's `shell_loop` takes rounds, of which
-- one more than its input has characters is enough; its `ls` and `cat` need more rounds than the
-- directory has entries and the file bytes. The wait for a child needs more rounds than the child
-- stops. An interrupt handler runs as one step.
--
-- Not modelled: assembly and port access, and the instructions that load tables, halt and switch
-- interrupts, which are machine instructions (what a port reads as is a parameter, what is written to
-- ports is a list); the macros of include/lib/list.h that compute the address of an enclosing struct, and
-- `list_for_each_safe`, which only tests use; the standard headers, which are types of the language;
-- `print_buffer` of the terminal and `syscall4` and `syscall5`, which nothing calls; the message of the
-- shell in front of `exit` where memory runs out; and the tests.
pub mod Base
pub mod Bitmap
pub mod LinkedList
pub mod Memory
pub mod Heap
pub mod Text
pub mod Errno
pub mod Process
pub mod Keyboard
pub mod Vfs
pub mod Screen
pub mod Files
pub mod Print
pub mod Terminal
pub mod Shell
pub mod Tmpfs
pub mod Gdt
pub mod Panic
pub mod Pic
pub mod Interrupts
pub mod Syscalls
pub mod Boot
