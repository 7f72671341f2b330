-- ===== src/Lib.antt =====
-- Models of the lasagne kernel (kernel/, C for x86-64), and theorems on them.
--
-- The kernel takes the physical memory map from the boot loader (kernel/mm/memory_map.c), hands out page frames
-- from it (kernel/mm/frame.c), and runs a buddy allocator (kernel/mm/buddy.c) for its heap, with bitmaps and
-- powers of two from kernel/include/util/. It prints (kernel/core/printk.c) to a terminal in text mode
-- (kernel/arch/x64/io/tty.c) and sets up the interrupt descriptor table and the interrupt controllers
-- (kernel/arch/x64/irq.c). Pages are mapped with frames of the frame allocator (kernel/mm/pages.c). Threads
-- stand in circular lists (kernel/include/ds.h) of tasks and their threads, through which the scheduler goes
-- (kernel/core/task.c). The timer's interrupts (kernel/arch/x64/io/pit.c) preempt them.
--
-- - Base: shared names, tests on numbers, lists as C arrays, and the bits of a word.
-- - Util: kernel/include/util/bitmap.h and math.h. A buffer is the list of its bytes. The compiler's
--   `__builtin_ctzl` and `__builtin_clzl` are `ctzl` and `clzl`, which count over 64 bits and are `none` at 0,
--   where they are undefined.
-- - MemoryMap: `mem_map` is the list of its areas; `mem_map_add_area` is `add_area`, whose jump back to the
--   label is the recursion `merge` with one round more than there are areas, since a jump removes an area;
--   `mem_map_sanitize` is `sanitize`.
-- - Multiboot: kernel/arch/x64/multiboot.c reads words of a memory that is a parameter, and adds areas to
--   MemoryMap. The loop over the tags has fuel; one round more than there are tags is enough for a list that is
--   well formed.
-- - Frame: the allocator is a record with the page table entry behind `current_pte`; the memory is a function of
--   the frame and the word in it. `alloc_frame`, `dealloc_frame`, `alloc_init` (`init`), `extend`, `map`
--   (`map_node`) and `current` (`mapped`) are functions on that state. The TLB is not modelled. Frame.Start begins
--   with the areas of MemoryMap.
-- - Buddy: the allocator is a record, and the nodes of free blocks are a function of the address. Every function
--   of kernel/mm/buddy.c that computes has a definition of its name, without the prefix `allocator_`. The loops
--   run over the levels, so a level is enough fuel. FreeList says what a list of free blocks is, Index numbers the
--   blocks, and Pairs ties the allocation bits to the lists. Coalesce and Splits have the abstract lists after a
--   block is freed or split; Free, Create, Again, Merge and Level follow the code from there, and Begin has the
--   state after `init`. Faults has the states that the code breaks.
-- - Alloc: kernel/mm/alloc.c on the state of Buddy and the bytes of the memory, which `memset` changes. Alloc.Start
--   maps the heap with Pages and calls Buddy's `init`.
-- - Printk: each print function returns the bytes that it sends to `backend`. The digits of a number are cut at
--   the 25 places of `str`, where 20 are enough for 64 bits.
-- - Tty: the terminal's state is a record with the ring of lines and the video memory as functions of the index.
--   The copying loop has `buffer_height` rounds as fuel, one more than the 29 it can need.
-- - Assert: kernel/core/assert.c, as what is printed. Buddy.Status and Frame.Status print the state of an
--   allocator.
-- - Irq: the two interrupt tables are functions of the vector; what the ports read is a parameter, and what is
--   written to them is a list in Irq.Start. Irq.Exception returns the bytes that the handler of exceptions prints
--   before the machine is halted, on the registers and the stack of the interrupted code.
-- - Libc: `memcmp` of kernel/libc/string.c, over bytes as functions of the offset.
-- - Pages: the entries of the page tables are a function of their address in the part of the address space that
--   shows the tables. The frame allocator is a record of two operations, `FrameSource`, which Frame's
--   `alloc_frame` and `dealloc_frame` fill in `default_frames`. The loops over the levels are written out; those
--   over pages have a round for each page. Pages.Start makes the page of zeros and drops the first tables' lower
--   half.
-- - EarlyPaging: kernel/arch/x64/paging_init32.c. The linker's symbols are a record, the tables functions of the
--   index. The loops have fuel; more rounds than the tables have entries are enough.
-- - Ds: the macros of kernel/include/ds.h on nodes whose links are a function of the address. Ring says what a
--   circular list is, Rotate reads it from another node, Frame says what the macros leave.
-- - Task: kernel/core/task.c. The state is a record of the variables and the objects. `schedule` has fuel for
--   each of its two loops; as many rounds as the lists have nodes are enough. Order has the abstract queues,
--   Represents ties the state to them, Schedule and Preempt follow the code, Nearer and Fair count the steps,
--   Create, Added and Usermode add to the lists, Stack has the stack of a new thread, Space maps the pages of a
--   new task with Pages, and Boot makes the first tasks.
-- - Syscall: kernel/core/syscall.c on the state of Task; what a handler leaves as its result is a parameter.
--   Syscall.Start sets the vector and the model-specific registers, a function of their number.
-- - Timer: kernel/arch/x64/io/pit.c, with the count of ticks beside the state of Task.
-- - Tests: the theorems at concrete states, and short runs.
--
-- An assertion that fails halts the machine, and is `none`; so is a step that C leaves undefined, where a
-- module's comment says so. Addresses and sizes are numbers modulo 2 ^ 64 where the code computes with
-- `uint64_t`.
--
-- A result of type `int` in kernel/mm/buddy.c is its 32-bit pattern, and a `1 << b` there is one of 32 bits; C leaves
-- it undefined past bit 30. The geometry that Buddy's theorems suppose has at most `2 ^ 30` leaves.
--
-- Not modelled: kernel/arch/x64/init.c, which calls the initializations in turn, and loops; `krealloc`, whose
-- copy past the end of a smaller block overwrites the nodes of free blocks; the body of the first kernel thread
-- (`do_sth`), which counts and prints; the tables that another address space shows (`set_address_space` only sets
-- a field of Task's state); and the assembly files but for `memset`: the switch of the stacks, the entry and the
-- exit of the interrupts and the access to ports and registers are among them. They act on the processor alone.
-- The compiler under language/ and the tools under utils/ are other programs.
pub mod Base
pub mod Util
pub mod MemoryMap
pub mod Multiboot
pub mod Frame
pub mod Buddy
pub mod Pages
pub mod EarlyPaging
pub mod Alloc
pub mod Printk
pub mod Tty
pub mod Assert
pub mod Irq
pub mod Libc
pub mod Ds
pub mod Task
pub mod Syscall
pub mod Timer
pub mod Tests
