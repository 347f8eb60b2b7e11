-- ===== src/Lib.antt =====
-- PotatOS: the core of the kernel's C code as executable definitions, with the theorems that make
-- each part correct. Paths are from the repository's root.
--
-- Utils/Strings, Utils/Reverse, Utils/Numbers and Utils/Numerals: src/utils/string.c, the byte and
-- string functions and the number printers. A char* is the list of the bytes from the pointer to the
-- end of its object. The digits loops have fuel for 65 rounds, one more than the binary digits of a
-- uint64_t, and the loop that counts decimal digits for 20.
-- Utils/Printf: printf_template of src/utils/printf.c, with what it writes as a list.
-- Mem/Vectors: src/mem/vector.c, the linked vector that the rest of the kernel keeps its tables in,
-- over an explicit heap of its nodes; a well-formed vector is a chain of distinct nodes from
-- `first_node` to the null pointer, as long as `length`. The walk to the last node has fuel for one
-- node more than `length`.
-- Mem/Pmm: src/mem/pmm.c, the physical page allocator over the memory map that the bootloader gives
-- (include `limine.h`): memory is a function from addresses to bytes, and each section's bitmap lies
-- at its start. get_bitmap_reserved is run for one round, which is enough exactly when it ends at all.
-- Mem/Paging: src/mem/paging.c and src/mem/map.c, the page tables as pages of words, with the page of
-- each call of kmalloc as a parameter. The nested loops are one loop for each depth, with as many rounds
-- as a table has entries left; a tree is well-formed when no page of it is reached in two ways. The
-- loop of write_vmem has fuel for one round more than there are bytes.
-- Mem/Kheap: src/mem/kheap.c, the headers of the pools at their addresses; a well-formed heap is a chain
-- of pools that do not overlap and hold what they are required to. The loop of malloc has fuel for as
-- many rounds as there are pools.
-- Tasks/Events: src/tasks/events.c, the event queues of the tasks, clients of Mem/Vectors.
-- Drivers/Keyboard: src/drivers/keyboard.c, the tables of characters, the interrupt handler, with its
-- effects on the screen and its end of interrupt as a list, and the two halves of a read, with the
-- interrupts between them as a sequence of scan codes.
-- Fs/Vfs: src/fs/vfs.c, over a FileSystem, the record of its functions, and what malloc gives, as
-- parameters: drives, paths, the walks of open, mkdir and create_device, and open files. The walks have
-- fuel for one round more than the path has characters.
-- Fs/Tempfs: src/fs/tempfs.c, inodes and directory entries at addresses of their own. The walk of find
-- has fuel for one round more than there were calls of malloc.
-- Fs/Tempfs/Files: the files of src/fs/tempfs.c as chains of blocks, and the record of functions that
-- Fs/Vfs calls. Their loops have fuel for one round more than there are bytes.
-- Fs/Ustar: src/fs/ustar.c, over Fs/Vfs. The loop has fuel for the headers of the archive and one more.
-- Tasks/Loader: src/tasks/spawn.c, the checks on an executable, its segments and its pages; the program
-- headers are a list of records.
-- Tasks/Loader/Arguments: the two loops of src/tasks/spawn.c over the new task's arguments.
-- Tasks/Syscalls: the calls on files of src/tasks/syscalls.c, over Fs/Vfs, and those on events, over
-- Tasks/Events.
-- Tasks/Mmap: src/tasks/mmap.c, over Mem/Paging and, for the file that is mapped, Fs/Vfs.
-- Drivers/Apic: the redirection entries of the I/O APIC in src/drivers/apic.c.
-- Tasks/Scheduler: src/tasks/tasklist.c, the list of the tasks and the choice of the next one, on one
-- processor, as two vectors of Mem/Vectors and the tasks at their addresses. task_select calls itself
-- once for each task that it skips, and has fuel for as many calls; spinlock_aquire has fuel for the
-- rounds in which it waits.
-- Processors/Spinlock: src/processors/spinlock.c, the steps of several processors between their shared
-- accesses of a lock, which a processor that has not taken it may release, and one that has may keep.
-- Its theorem is for the releases by processors that have taken it.
-- Cpu/Descriptors: the segment descriptors of src/cpu/gdt.c, against the layout of the processor's
-- manual. The assignments to one entry of the table are one word, written once.
-- Cpu/Gates: the entries of the interrupt table, src/cpu/idt.c.
-- Prelude: tests on numbers, C arrays as lists, bit fields, and `Run`, the outcome of a piece of C
-- code: a result, an access that C leaves undefined, a halt, or a loop that used up its fuel.
--
-- A call of malloc is an argument, the address or the object that it returns, with the facts about it
-- as hypotheses: the address is not null and no node lives there, or the object has the size asked for.
-- Machine integers are numbers with the wrap-around written out where the code can reach it; sums of
-- addresses are plain sums. The functions' messages on the console are left out. Apart from the
-- keyboard's interrupts and the steps in Processors/Spinlock, each function runs alone.
-- Not modelled: the drawing of characters and the frame buffer, the local APIC and the timers, spawn as
-- a whole, the end of a task, the C library and the programs of the user, and the code that only moves
-- values between the processor's registers and the tables it reads.
pub mod Prelude
pub mod Utils
pub mod Mem
pub mod Tasks
pub mod Fs
pub mod Cpu
pub mod Drivers
pub mod Processors
