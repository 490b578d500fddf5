-- ===== src/Lib.antt =====
-- The ktux kernel: a model of the parts of its C code that keep state, and what is proved of them.
--
-- ktux is a small kernel for 32-bit x86. After the boot loader, `_kernel_main` lists the free page
-- frames, sets up the consoles, the interrupt table, the interrupt controllers and the keyboard, creates
-- its threads and starts the scheduler; from then on everything happens in interrupts: the timer calls
-- `__task_switch`, the keyboard edits a command line, whose commands toggle interrupt lines, and output
-- goes to the virtual consoles.
--
-- Base: what the other files share: Boolean tests, lists and memories, `unsigned` and `int` arithmetic
-- with the wrap written out, bit masks, and the result `Run` of code that may loop or leave an array.
--
-- Process (src/kernel/process.c, src/include/process.h): threads and the round-robin scheduler.
-- `task_switch` is `__task_switch`, with `switch`, `retire`, `find` and `dispatch` as its parts; `kill`
-- and `yield_task` call it as the code does. Process.Create is `create_kernel_thread` with the stack that
-- it prepares, `init_multitasking` and `start_scheduler`. `kmalloc` and the linked list, a copy of
-- Linux's, are interfaces (`Allocator`, `ThreadList`). Process.Report is `ps`, on Stdio.
--
-- Memory (src/kernel/memory.c, src/include/memory.h): Memory.Address has the macros on addresses and
-- table entries, Memory.Frames has `alloc_page` and `free_page`, and Memory.FreeList the part of
-- `init_virt_mem` that lists the free frames. Memory.Paging has the functions that map and unmap pages:
-- memory is a word at each multiple of four, and the translation of an address is the parameter `Mmu`,
-- of which `Walks` says that it is the walk over directory and table. Memory.Paging.Boot is the whole of
-- `init_virt_mem`. Memory.Heap has `init_heap`, `page_fault_handler`, `sbrk` and `kmalloc`: a store to the
-- heap that faults calls the handler and is done again. Calls of `kprintf` are kept as a list of formats
-- and arguments there; Memory.Report is `print_mem_info`, on Stdio.
--
-- Strings (src/kernel/string.c): the block operations and the comparisons, all of them.
--
-- Video (src/kernel/video.c, src/include/video.h): `putch_help`, one console's automaton for characters
-- and escape sequences, with one function for each of its states; Video.Consoles has the set of
-- consoles, the one shown and the registers of the video controller, and Video.Consoles.Boot is
-- `init_console`, whose output goes through Stdio. Video.Consoles.Info is `print_video_info`.
--
-- Pic (src/kernel/pic.c): the masks of the interrupt controllers. The I/O ports are the parameter `Ports`;
-- that a mask register reads as it was written is the hypothesis `HasMasks`.
--
-- Stdio (src/kernel/stdio.c): formatted output. `do_printf` is the state machine over the format, on any
-- function that takes characters; Stdio.Printers has `kprintf`, which sends them to the current console,
-- `vsprintf` and `sprintf`, which write memory, and `panic`. Stdio.Fields says what a format means, as a
-- list of pieces and the text that they stand for; Stdio.Calls is a sequence of calls of `kprintf`.
--
-- Idt (src/kernel/interrupts.c): `set_idt_entry`, `init_interrupts` and `load_idtr`. The addresses of the
-- assembly stubs are the parameter `Stubs`, and the words that the code reads behind the end of an array
-- are the parameter `beyond`. Idt.Exception is `exception_handler`, on Stdio, and Idt.Reboot is `reboot`.
--
-- Keyboard (src/kernel/keyboard.c, src/kernel/sh.c): the tables of scan codes and `convert`;
-- Keyboard.Line is the command line, `cmd_buf_add`, and `processCommand`, which uses Strings and Pic.
-- Keyboard.Interrupt is `kbd_irq_handler` with `process_kbd` and `write_kbd`: it follows the meta keys,
-- sets the LEDs, chooses the console shown, feeds the command line and prints the threads. A read of
-- the controller's status is a parameter that changes the devices, since the controller may become
-- ready between two reads. Keyboard.Prompt is `shell_prompt`.
--
-- Timer (src/kernel/timer.c): the timer's count for a frequency, on the parameter `Ports`, and the handler
-- that sends a dot to the console.
--
-- Kernel (src/kernel/kernel.c): `_kernel_main` up to `sti`, as one function for each part of the start and
-- their composition over the state of all parts. Kernel.Lines and Kernel.Opened follow the last of them;
-- `IsController` says what they count on of the two 8259s, from the words of initialisation on, and
-- `HandsOut` that `kmalloc` does not run out of memory.
--
-- Hardware (src/kernel/hardware.c, src/include/hardware.h), Syscall (src/kernel/syscall.c) and Tasks
-- (src/kernel/tasks.c, `thread_monitor`): the report of the processor, the system calls and the thread
-- that shows the counters of the others, on Stdio.
--
-- Bounds and fuel. Machine words wrap at 2 ^ 32 where the code computes with `unsigned`, and the bounds
-- under which they do not stand among a theorem's hypotheses. The search of the scheduler and the loop
-- over all pages run on fuel: as much fuel as there are threads finds the next one if one can run, and
-- one unit for each page and one more lists all pages. The loop that pads to a tab stop has eight rounds,
-- the loop over the stack of an exception twelve, and the one over the consoles the twelve of `MAX_VC`.
-- The loop that waits for the keyboard controller has the 500000 rounds of the code. The buffer for the
-- digits of a number has the code's 31 bytes, and a write before it is a fault. The loops over a page
-- table have more than 1024 rounds, `sbrk` one for each page and one more, and `kmalloc` at most two calls
-- of itself; `map_page_helper` calls itself at most as often as its fuel says, and what runs on for every
-- fuel, like the `while(1)` of the page fault handler, does not return.
--
-- Not modelled: the cache of the paging unit, which `invalidate` empties; an access that is not
-- aligned to a word, or that faults on a page table, which is a fault; the threads of tasks.c that only
-- count and `do_idle`, which stops in a loop at once; assembly files, and the code that the Makefile
-- does not build. The messages of the scheduler, of the thread creation and of pic.c leave no trace. `cli` and `sti` leave
-- one in `panic`, `map_page_helper`, `reboot`, the keyboard's handler and at the end of `_kernel_main`
-- only: a function runs to its end before the next interrupt.
pub mod Base
pub mod Hardware
pub mod Idt
pub mod Kernel
pub mod Keyboard
pub mod Memory
pub mod Pic
pub mod Process
pub mod Stdio
pub mod Strings
pub mod Syscall
pub mod Tasks
pub mod Timer
pub mod Video
