-- ===== src/Lib.antt =====
-- BenmoshOS is a 32-bit x86 kernel in C. This library models its core in files named for the parts,
-- and proves what makes each part correct.
--
--   Cpu.antt                 src/cpu/ports/ports.h: the interrupt flag, irq_save and irq_restore
--   Pmm.antt                 src/memory/pmm/pmm.c: the record Pmm holds the two bitmaps and the
--                            counters; is_frame_free, mark_used, mark_free, alloc_frame, free_block,
--                            reserve_block, init and get_stats are the functions pmm_... of that name
--   Vmm.antt                 src/memory/vmm/vmm.c: paging over the words of physical memory; the operations
--                            keep their names (vmm_map_page, vmm_get_physical, and so on)
--   Heap.antt                src/memory/heap/heap.c: heap_init, kmalloc, kfree, kmalloc_aligned and
--                            kfree_aligned over the words of memory
--   Klib/LinkedList.antt     src/klib/list.h: list_init, list_add, list_add_tail, list_del, list_empty
--                            over memory for the fields next and prev
--   Klib/Bytes.antt          src/klib/string.c: memcpy, memset, memcmp, strlen
-- --   Klib/Strings.antt        src/klib/string.c: memsetw, strcmp, strcpy, strncpy
--   Klib/Numbers.antt        src/klib/stdlib.c: itoa, atoi and itoh
--   Drivers/Keyboard.antt    src/drivers/keyboard/keyboard.c: keyboard_handler and kbd_getchar
--   Drivers/Console.antt     src/drivers/print/print.c: print_char, puts, update_screen, screen_clear,
--                            scrolling and set_print_color
--   Kernel/Task.antt         src/kernel/task/task.c: task_init, task_yield, task_exit, task_kill and the reaping
--                            of dead tasks; Kernel/Task/Creation.antt: task_create
--   Drivers/Ata.antt         src/drivers/ata/ata.c: ata_read_sector and ata_write_sector over what the
--                            drive answers on its ports
--   Fs/Volume.antt           what src/fs/fat16.c works on: the sectors of the drive, the cached geometry,
--                            error codes, and actions that may fail
--   Fs/Fat16.antt            src/fs/fat16.c: the geometry, the allocation table, fat16_alloc_cluster and
--                            fat16_free_chain; the files below it are the other layers: Names (short names),
--                            Directory and Find (iterate_directory, fat16_find_in_dir), Path
--                            (fat16_resolve_path), Insert (fat16_insert_entry), Files (create, delete,
--                            make and remove a directory), Files/Load, Files/Write, Files/Listing
--
-- The files below each of these hold its proofs, and Prelude.antt the names and lemmas that they share.
-- The virtual memory manager takes the frames of its tables from the physical one. The heap shares with
-- them nothing but the machine: pmm_init reserves the frames of the heap. Interrupts are off where the
-- source turns them off. The file system calls the disk driver for each sector: for it the drive is a store
-- of sectors with a list of the transfers that fail, and a sector number counts modulo 2 ^ 28, since the
-- registers of the drive take 28 bits. It takes its buffers from the heap: there
-- `kmalloc` is an argument.
--
-- Machine words are natural numbers. Where the source may wrap around, `add32` and `sub32` do, and a
-- shift or a cast has its `% 2 ^ 32` written out. Memory is a function from an address to the word
-- there, an array a function of its index. A kernel panic halts the machine: it is an outcome of its
-- own (`panic`, or `none`), after which nothing runs.
--
-- The loops of the physical memory manager count to a bound that the source gives, and recurse on it.
-- The two searches of the heap follow pointers. They recurse on a number of rounds, `max_blocks`, which
-- is more than the headers that 4 MB have room for: the theorems on kmalloc and kfree show that the
-- rounds are never used up on a well-formed heap. `strlen` takes its rounds as an argument, and needs one
-- more than the string has bytes. In the file system a loop along a chain of clusters, and the one over
-- numeric tails, take rounds as an argument, and an action that has used them up is `running`; the loop over the
-- components of a path has one more than the path has characters. The waits of the disk driver count down
-- from a million, as in the source.
--
-- Not modelled: assembly, port I/O, the descriptor tables, formatted printing, the switch of
-- context, system calls and the shell. The messages that the disk driver prints are left out, and of what
-- fat16_list_directory prints, the color that it sets before an error. What the BIOS leaves in memory (the memory map) and
-- what the linker gives (the end of the kernel) are arguments of `init`.
pub mod Prelude
pub mod Cpu
pub mod Pmm
pub mod Heap
pub mod Vmm
pub mod Klib
pub mod Drivers
pub mod Fs
pub mod Kernel
