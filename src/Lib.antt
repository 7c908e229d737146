-- ===== src/Lib.antt =====
-- Ann is a small operating system kernel for AMD64 in C. A boot loader (src/kernel/boot) starts a second
-- stage loader (src/kernel/loader), which reads the kernel from disk, finds out about memory, fills the
-- list of free pages and makes the first page tables. The kernel (src/kernel/kernel.c) takes these over,
-- creates tasks and threads (src/kernel/task.c, src/kernel/thread.c), and then runs in interrupt
-- handlers (src/kernel/interrupt): each ends in schedule, which picks a task and resumes it. System
-- calls (src/kernel/syscall.c) arrive as interrupts. All address spaces are made by
-- src/kernel/lib/memory/map.c, which also keeps the pages' reference counters.
--
-- Parts and files
--   Base          shared names, Boolean tests, lists over native numbers, the laws of `|` and `&`
--   LinkedList    the interface ListOps: src/stdlib/queue.h is a copy of the BSD macros, and what the
--                 kernel relies on of them are the laws of this record
--   Memory.Layout src/kernel/lib/memory/mmu.h and layout.h, src/kernel/misc/util.h
--   Memory.Machine the state of memory and the commands over it
--   Memory.Pages  page_alloc, page_free, page_incref, page_decref of src/kernel/lib/memory/map.c
--   Memory.Map    mmap_lookup, page_insert, page_remove, page_lookup of the same file; Walk holds the
--                 specification, the translation of addresses that the processor does; Tree, UserPage and
--                 Spaces are about the user part of several address spaces at once
--   Task          src/kernel/task.h and cpu.h
--   Task.Create   task_init and task_new of src/kernel/task.c
--   Task.Destroy  task_destroy and task_kill of the same file
--   Task.Load     task_create of the same file and src/kernel/misc/elf.h
--   Task.Thread   src/kernel/thread.c
--   Task.Schedule task_run and schedule of src/kernel/task.c
--   Loader        the memory part of src/kernel/loader/loader.c; Loader.Boot is the reading of the kernel,
--                 the GDT and loader_init_memory
--   Disk          src/kernel/lib/disk/ata.c, over the instructions on ports
--   Terminal      src/kernel/lib/console/terminal.c; Terminal.Printf is terminal_vprintf
--   Syscall       src/kernel/syscall.c; Syscall.Share is about one shared page, Syscall.Space about all
--   Start         kernel_init_mmap of src/kernel/kernel.c, the conversion of the pages array
--   Interrupt     interrupt_handler and page_fault_handler of src/kernel/interrupt/interrupt.c, the
--                 handlers of timer.c and keyboard.c beside it; Setup has interrupt_init, Keeps and
--                 Waiting are about sequences of interrupts
--   Monitor       the keys of src/kernel/monitor.c; Monitor.Command has its commands
--   Segment       src/kernel/misc/gdt.h
--   CString       src/stdlib/string.c and stdlib.c
--
-- State and correspondence
--   Functions and fields keep the names of the source. A `struct page *` is the index of its page, a
--   pointer into the linear mapping of physical memory is written as the physical address, and the
--   free list is the sequence of the pages that are linked. Memory is a function from addresses of
--   64-bit words to their contents; Disk and the reading of the kernel in Loader.Boot see its bytes.
--   A failed assertion ends in `panic`, since kernel_panic never
--   returns, and a PML4 or a current task that is NULL and followed in `fault` or `faults`; in Terminal,
--   Monitor and Start a failed assertion is `none`. `-1` and `0` as results are `false` and `true`.
--   Arithmetic on machine integers is taken modulo 2 ^ w where it can leave the range. A function whose loop is
--   repeated code, or has a body worth a name, is cut into that body and the rest.
--
-- Bounds and fuel
--   The loops over pages, rows, areas, tasks and bytes count down the rounds of the source. strlen and
--   strcmp run until a NUL byte: they take a bound on the bytes that they read, and their theorems
--   say that any bound above the length of the text is enough. terminal_print_digit takes a bound on
--   the digits, and 64 is enough for 64 bits in every base. The words of a command are looked for in
--   256 bytes, the size of the array that holds it. The waits for the drive and the loop over sectors take
--   bounds, and any that exceed the delay of the drive and the number of sectors are enough; so does the
--   loop over the program headers of the kernel.
--
-- Not modelled
--   The translation buffer (`invlpg`), interrupt flags, output for diagnosis (what the fault
--   handlers, the system calls and task_kill print, SYSCALL_PUTS without reading its argument), and what
--   follows a page fault of the kernel itself.
--   What a thread runs, and the start of the kernel but for the pages array. Assembly, device
--   registers, the boot loader and the user programs.
pub mod Base
pub mod LinkedList
pub mod Memory
pub mod CString
pub mod Disk
pub mod Interrupt
pub mod Loader
pub mod Monitor
pub mod Segment
pub mod Start
pub mod Syscall
pub mod Task
pub mod Terminal
