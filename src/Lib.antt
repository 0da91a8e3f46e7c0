-- ===== src/Lib.antt =====
-- A verification library of the VisualOS kernel, src/kernel of the repository. It models the parts
-- of the kernel that compute on memory and on shared state, and leaves the assembly that loads
-- control registers and the vendored libraries aside. Paths below are from the repository's root.
--
-- Base: what the parts share. Base/Lists, Base/Word (64-bit words, with their wrap written out),
--   Base/Bits (laws of the bitwise operations), Base/Loop (loops over a range), Base/Run
--   (commands on a state, which return, wait for ever, run out of fuel, or write behind an
--   array), Base/Table (loops that return at the first entry that fits) and Base/Libc (the
--   interface to memset of the C library, which is not part of the repository's own code).
--
-- Atomic: src/kernel/x86_64/atomic.asm and atomic.h. atomic_lock, atomic_unlock, atomic_spinlock
--   and atomic_accumulate on a 64-bit word, from the instructions bts, btr, bt and xadd.
--   Atomic/Spinlock is the same code for many processors, as a step relation in which the
--   instruction btr, which has no lock prefix, is a read and a later store.
--
-- Bitmap: src/kernel/memory/bitmap.c and bitmap.h. A bitmap is the memory behind its buffer and
--   its size in bytes.
--
-- Pageframe: src/kernel/memory/pageframe.c and pageframe.h. The static variables are the record
--   Pageframe, each function is a command on it, and its calls of the bitmap and of the lock
--   bits are the definitions of Bitmap and Atomic. Pageframe/Update is about the functions that
--   set a range of pages, Pageframe/Request and Pageframe/RequestPages about the two searches,
--   Pageframe/Tight about the current index.
--
-- Paging: src/kernel/memory/paging.c and paging.h. The indexes of an address, the address field
--   of an entry, and paging_map_page, which calls the allocator of Pageframe. The memory of the
--   tables is a function of a table's address and an index, apart from the bitmap's memory.
--   Paging/Walk says what the processor does with the tables and which shape the kernel gives
--   them; Paging/Level, Paging/LastEntry and Paging/Map follow paging_map_page level by level.
--   Paging/Attribute has the functions that set the attributes of pages, with SET_BIT of
--   src/kernel/kernel.h; Paging/SetBit, Paging/AttributeLaws and Paging/Marked are about them.
--   Paging/Regions has the maps of several pages and paging_init, Paging/IdentityMap is about
--   the first.
--
-- Symbols: src/kernel/symbols/symbol.c and symbol.h. The insertion sort of the symbol map in
--   symbol_init and the search for the symbol of an address. The map is the memory from its
--   address on, and an index below 0 is the size_t that it wraps around to. Symbols/Shift,
--   Symbols/Insert and Symbols/Sort are about the sort, Symbols/Round and Symbols/Resolve about
--   the search. Symbols/Table has the rest of symbol_init, over the section headers of the
--   kernel's file in the form of src/kernel/elf.h, and symbol_lookup, which Symbols/Lookup is
--   about; Symbols/Unwind is src/kernel/symbols/unwind.c.
--
-- Ioapic: src/kernel/x86_64/apic/ioapic.c and ioapic.h. The redirection entries, packed into two
--   registers of the controller, and the window through which its registers are read and
--   written. Ioapic/Setup has the functions that write the entries of the MADT's overrides and
--   of the handlers of src/kernel/x86_64/isr.c; Ioapic/FromIsrs is about ioapic_set_from_isrs.
--
-- Acpi: src/kernel/x86_64/acpi.c. The search for a table by its signature, over the words and
--   signatures that memory holds.
--
-- Scheduler: src/kernel/scheduler/scheduler.c and scheduler.h. Nodes in a heap, given by their
--   addresses, and the three queues, each a ring that is linked both ways. Scheduler/State is
--   the data; Scheduler/Links and Scheduler/Ring say what the writes of the links make of a
--   ring, and Scheduler/Queues which tasks a queue holds. Scheduler/Add, Scheduler/Leave,
--   Scheduler/Rotate and Scheduler/Left are about the operations, Scheduler/Scan and
--   Scheduler/Next about the choice of the next task, Scheduler/Turns about many choices in a
--   row. The address of a new node is what malloc returned, an argument of scheduler_add_task.
--
-- Text: src/kernel/shell/text.c, shell.c, src/kernel/framebuffer.h and, in Text/Color,
--   src/kernel/shell/color.c and color.h. A screen is the pixels from the framebuffer's base on,
--   the cursor and the colour; a string is the bytes from its address on. Text/Ansi and
--   Text/Escape are about the codes of colours, Text/Draw about the pixels of a character.
--
-- LocalApic: src/kernel/x86_64/apic/local_apic.c and local_apic.h. The registers of a
--   processor's own interrupt controller, a function of their offset. LocalApic/Bits has the
--   laws of single bits, LocalApic/Lints what local_apic_start_lints leaves. LocalApic/Madt is
--   src/kernel/x86_64/apic/madt.c and madt.h: the parse of the MADT's records from the bytes
--   that memory holds, on one step of fuel per byte of the records, which is enough where no
--   record has length 0; with such a record the code does not end. LocalApic/Records says what
--   the records of a table tell, LocalApic/Informed is about the loop over them and madt_init.
--   LocalApic/Setup is local_apic_init.
--
-- Descriptors: src/kernel/x86_64/idt.c, idt.h, gdt.c and gdt.h. The tables of interrupt gates
--   and of segments. Descriptors/Gates and Descriptors/Segments are about the entries as the
--   processor reads them, the latter also about the selectors that the scheduler gives to a
--   task. Descriptors/Keyboard is keyboard_handler of src/kernel/x86_64/interrupt_handler.c.
--
-- Boot: the start. Boot/Stivale2 is src/kernel/stivale2.c, stivale2.h and bootloader.c, the tags
--   of the bootloader as views of memory, Boot/Tags about the search of a tag and the memory
--   map; Boot/Pageframes is pageframe_init of src/kernel/memory/pageframe.c, Boot/Measure about
--   its first loop, Boot/Steps about its calls and Boot/Ready about the whole; Boot/Setup is
--   setup_memory of src/kernel/setup.c.
--
-- Pci: src/kernel/x86_64/pci.c, pci.h and, in Pci/Ids, pci_id.c. The configuration space is
--   memory, an argument. Pci/Scan follows the commands of a scan by the pages that they map and
--   the devices that they add, Pci/Found the scan of all buses; Pci/Named is about the names.
--
-- Process: src/kernel/scheduler/process.c and process.h, and in Process/Loader loader.c.
--   Processes in a heap, with the state of the scheduler and of the page tables; Process/Created
--   is about process_create_new.
--
-- Sys: src/kernel/sys, the system calls and their table, with log_output_size of
--   src/kernel/log.c. Sys/Written is about sys_writev, Sys/Memory about sys_mmap and sys_munmap,
--   Sys/Handlers about the table.
--
-- Cpu: src/kernel/x86_64/cpu.c and cpu.h. The context of a processor, with the state of the page
--   tables, the words of memory, the GDT of each processor and the IDT that they share;
--   Cpu/Allocated is about cpu_allocate, Cpu/Initialized about cpu_init.
--
-- Pit: src/kernel/x86_64/pit.c and pit.h. The divisor of the interval timer, with the bytes put
--   out on its port; Pit/Divisor is about the divisor that the timer gets.
--
-- Bounds and fuel: the theorems on the allocator ask for a bitmap of fewer than 2 ^ 52 pages, so
-- that no page's address passes 64 bits. The search for several pages runs on as many rounds as
-- there are pages from the current index to the end of the bitmap and one more, which is enough
-- since every round moves the index; its theorem says that it returns. The loop of
-- paging_identity_map runs on one round more than there are pages, which is enough for a range
-- that ends a page before 2 ^ 64; behind that it would not end. The inner loop of the sort runs on
-- as many rounds as there are entries and one more, which is enough if the memory before the map
-- ends it. The search of symbol.c runs on as many rounds as there are symbols, which is enough for
-- an address that is not below the first of them. A lock bit that is on and that nobody gives back
-- is the outcome spins.
--
-- An array has the places that its source declares where the code counts its entries without a
-- look at the size: 32 devices of PCI, 256 regions of the memory map, and 128 processors, 8 I/O
-- APICs, 16 overrides and 8 non-maskable interrupts of the MADT. A write behind one of them is the
-- outcome overruns, and the theorems ask for lists that fit. The products of ints in paging_map
-- and in the pixel's place are those of a machine that wraps, and the theorems ask for at most 2 ^
-- 19 pages and 2 ^ 31 pixels.
--
-- The lists of tags, of environments and of child processes are followed on fuel, which is enough
-- for a list of fewer entries; a list that is a ring is followed for ever. The search of a
-- process's stack in process_create_new stays at one environment, so no fuel is enough for it
-- unless the stack is first. The loop over the descriptors of PCI has one round for each of them
-- and two more.
--
-- Not modelled: the idle task's code and the log but for its output of bytes, the start of other
-- processors, the handlers of interrupts but for the keyboard's, and the assembly of the
-- processor's control registers, the calls of setup.c but for setup_memory; pci_print, which only
-- prints; and of the modelled files shell_clear. The user libraries are other projects' code.
pub mod Base
pub mod Atomic
pub mod Bitmap
pub mod Pageframe
pub mod Paging
pub mod Symbols
pub mod Ioapic
pub mod Acpi
pub mod Scheduler
pub mod Text
pub mod LocalApic
pub mod Descriptors
pub mod Pit
pub mod Boot
pub mod Pci
pub mod Process
pub mod Sys
pub mod Cpu
