-- ===== src/Lib.antt =====
-- LighthOS, a hobby x86_64 kernel in C: the parts of the kernel that keep data structures.
--
-- The parts, from the bottom up. The boot loader hands the multiboot tables to the frame
-- allocator, which hands out 4 KiB frames to the paging code. The kernel heap is one region
-- of frames that kmalloc cuts into blocks; pipes, task stacks and file system nodes live there.
-- Tasks wait in the kernel by yielding in a loop, so what a system call sees after a wait is
-- whatever the other tasks have made of the shared state.
--
-- Common holds the Boolean tests, the lists over the native numbers and the bit operations on
-- `uint32_t` words that the parts share. Each other file beside this one models a C file, or a part of
-- one, with its child modules for the proofs and a module Tests for the concrete runs.
--
-- - Pmm and Pmm/Boot: src/mm/pmm.c. The state is the bitmap as a list of 32-bit words, with
--   `bitmap_words`, `total_frames` and `used_frames`. The functions keep their names without
--   `pmm_`. The multiboot tables of src/include/multiboot.h are lists of the fields that the
--   code reads; the address of `_kernel_phys_end`, which the linker fixes, is an argument. The
--   loops over frames run on fuel: `last` rounds are enough for a loop from `first` to `last`,
--   and `bitmap_words` and 32 rounds are what the loops of pmm_alloc_frame count themselves.
-- - Heap: src/mm/heap.c. The state is the chain of headers along `next`, each with its address;
--   the `prev` links are those of the chain. The sizes are 64-bit and wrap.
-- - CString: src/lib/string.c. memcpy, memmove and memset take addresses in one memory; for the
--   str functions a pointer is the list of bytes from there on.
-- - Vfs and Vfs/Calls: src/fs/vfs.c. A file system is the record `Ops` of its operations; the walk
--   of vfs_resolve runs on the length of the path and one more, as a round passes a byte or ends it.
--   Vfs/Through says of the texts alone which paths go through a mount point.
-- - Ramfs: src/fs/ramfs.c, an implementation of `Ops`. A pointer to an inode is its place in the
--   list of all inodes; `kmalloc` is a parameter, what the heap gives in a state.
-- - Fat and Fat/Chains: src/fs/fat.c, up to the walk along a chain of clusters. The block device is
--   the record `Blkdev`, over any state of a disk. fat_free_chain runs on fuel: each round that
--   can write the table clears an entry, so as many rounds as clusters are enough.
-- - Tasks: src/kernel/task.c. A pointer to a task is its place in the table of 64, which is also the
--   fuel of the loops along `next`. What `kfree` and `vmm_free_pml4` are given is kept in lists.
-- - Fds and Fds/Bytes: the descriptors of src/kernel/process.c, with the pipes of the kernel. A
--   pointer to a pipe is its place in the list of all pipes, where one that has been freed is none.
--   The calls of console_read and console_write are the record `Console`.
-- - Signals and Signals/Calls: the signals, groups and alarms of src/kernel/process.c, over the tasks
--   of Tasks. The search for the lowest pending signal runs 31 rounds, as in the code.
-- - Paths: canon_into and process_resolve_path of src/kernel/process.c. Paths/Follow is the
--   specification: a stack of names. Each round of the loop passes a byte, so the length of the
--   path and one more rounds are enough.
-- - BootLog: the boot log of src/lib/kprintf.c, a ring of 16384 characters; the calls of vfs_write
--   that boot_log_flush makes are a list. The two devices that kputchar writes to are left out.
-- - Vmm: src/mm/vmm.c. A table is its physical address in a memory of words; the four levels of the
--   code are one function of the level. The tables of a user half are a tree: Vmm/Tree gives each
--   its one place. Vmm/Space is the address spaces and vmm_init, Vmm/User the checks and copies of
--   user pointers; the fuel of user_ptr_ok is the number of the pages, one for each round.
-- - Elf: src/kernel/elf.c, over Vmm. Elf/Interp is elf_find_interp and elf_phdr_vaddr. The loop over
--   the pages runs on their number; the loop that copies a segment runs on as many rounds as it has
--   bytes, and a round copies a byte at least.
-- - Blkdev: src/fs/blkdev.c. A partition is again the record `Blkdev` that Fat takes.
-- - Kprintf: the formats of src/lib/kprintf.c. The digits of 64 bits take 64 rounds at most, and
--   the length of a format is enough for the loop over it, as a round passes a character at least.
-- - Pipe: src/kernel/pipe.c. The state is the struct. `Others` is what the other tasks make of
--   the pipe in each `task_yield`, a list of arbitrary functions: one that ends stands for a wait
--   that goes on. pipe_write runs on as many rounds as there are bytes, and a round stores at
--   least one byte or ends the call, so they are enough.
--
-- Left out: messages on the console and the serial line, processor instructions (interrupt
-- flags, CR3, the TLB, FPU state), device ports, and the tests of null pointers where the model has a value.
-- The directories and files of the FAT file system, the creation and the end of processes,
-- system calls and the user programs are not modelled.
pub mod Common
pub mod Pipe
pub mod Pmm
pub mod Heap
pub mod CString
pub mod Vfs
pub mod BootLog
pub mod Ramfs
pub mod Tasks
pub mod Fds
pub mod Signals
pub mod Paths
pub mod Fat
pub mod Vmm
pub mod Elf
pub mod Kprintf
pub mod Blkdev
