-- ===== src/Lib.antt =====
-- StellaresOS, a small i386 kernel with two file systems, a scheduler and a shell: a model of the
-- parts that carry its logic, and what is proved of them.
--
-- The parts and how they meet. libc/string.c serves every other part: it is Libc, with the memory
-- and string routines in Libc/Str, `strtok` in Libc/Token and the number conversions in
-- Libc/Number. A buffer is the list of its bytes from the pointer on; the functions keep the names
-- of the source. kernel/scheduler.c is Kernel/Sched: a record `Sched` holds its static variables
-- and the processor, `sched_tick`, `proc_create`, `proc_sleep`, `proc_exit` and `proc_kill` are its
-- operations, the time (`pit_ticks()`) is an argument, and the inline assembly of `context_switch`
-- is Kernel/Sched/Context, word by word. The loops that wait for an interrupt have no state of
-- their own: what happens in them are the later ticks. fs/ramfs.c is Fs/Ram: the table of 128
-- nodes, in which a pointer is an index; `ramfs_mkdir` is `mkdir`, and so on; `ramfs_resolve`
-- splits its path by `strtok`, as Libc/Token has it. fs/diskfs.c is Fs/Disk, over a block device
-- (Fs/Device), the interface that drivers/ata.c fills: reading, writing and detecting are a
-- parameter, and `IsReliable` states what a working device does. The packed records and the
-- searches in the inode table are Fs/Disk/Table; `diskfs_write` is `write_file`, and so on. A read
-- or write that fails is a branch of every operation. shell/editor.c is Shell/Editor: a record
-- `Editor` holds its static variables, `run_key` is one round of the loop of `editor_run`, and
-- saving and loading (Shell/Editor/File) use Fs/Ram.
--
-- kernel/pmm.c is Kernel/Frames, with the bitmap as one test for each page frame; kernel/heap.c is
-- Kernel/Heap, the list of its blocks, with the map from pointers to sizes that it implements in
-- Kernel/Heap/Refine; kernel/login.c is Kernel/Login, over Libc/Token, Libc/Number and Fs/Disk;
-- kernel/syscall.c is Kernel/Syscall, whose record `System` joins the descriptors to Fs/Ram,
-- Fs/Disk, Kernel/Sched and the screen. kernel/elf_loader.c is Kernel/Elf, over one 32-bit address
-- space (Kernel/Elf/Bytes) in which the file, the segments and the stack of the program lie
-- together; `elf_exec` joins it to both file systems and the scheduler. drivers/vga.c is
-- Drivers/Vga, the 2000 cells and the cursor, with `vga_printf` in Drivers/Vga/Printf;
-- drivers/keyboard.c is Drivers/Keyboard, the ring and the interrupt handler; drivers/ata.c is
-- Drivers/Ata, over the ports of a controller, whose every read may change its state. pkg/spk.c is
-- Pkg/Spk, over both file systems. shell/stellash.c is Shell/Stellash: a record `Shell` holds its
-- static variables, both file systems, the scheduler and the screen; the input line is
-- Shell/Stellash/Input, the commands are Shell/Stellash/Commands, Shell/Stellash/Show and
-- Shell/Stellash/Info (with the splash screen and `sched_dump`), and the start with the user's
-- home is Shell/Stellash/Home. Shell/Stellash/Execute is `execute`, from a line
-- (Shell/Stellash/Line) to its command, over a `Session` that joins the shell to the editor, the
-- packages and the loader; what the commands ask of the rest of the machine is its record
-- `Outside`. shell/snake.c is Shell/Snake, where `round` is one round of the game.
-- kernel/installer.c is Kernel/Installer: its fields and screens over the keys that are typed, and
-- what it writes through Fs/Disk, which Kernel/Login reads back. kernel/kernel.c is Kernel/Boot:
-- the memory and the frames that the kernel starts with (Kernel/Frames), the boot log, and the
-- choice between the installer and the login that gives the shell its user. kernel/idt.c and
-- drivers/pit.c are Kernel/Idt: the gates, the handlers of the sixteen lines, the writes to the
-- interrupt controllers, the panic screen and the timer.
--
-- Numbers are natural numbers, and a 32-bit number that can wrap round is taken modulo 2 ^ 32 where
-- the source computes it. Loops are structural, or run on fuel: `tokens` has one call of `strtok`
-- more than the string has bytes, `itoa` 32 rounds for a 32-bit number, `scan_ready` and `climb`
-- the counts of the source (16 each), the waits of Drivers/Ata the counter of the source (100000),
-- the loop over the segments of a program 65536 rounds for a count of 16 bits, `extend` of the
-- editor one round for each of the 64 lines, and the loops of the installer, each round of which
-- takes a key, one round more than keys are typed. The laws of `tokens`, of `itoa` and of the
-- installer show that their fuel is enough.
--
-- Memory that the code spoils: `ramfs_resolve` and `ramfs_abs_path` set no end of an array that a
-- path or a name fills, so they take what the stack holds there (`rest`, and the field `unset` of
-- the shell); `kfree` is `none` for a pointer that is no block's, of which the code tests one word
-- only; a system call that writes over the end of an array `spills`; a package whose strings run
-- over the arrays of `spk_install` is `none`; and a program that is loaded over bytes of the kernel
-- leaves the shell `spoilt`.
--
-- Not modelled: `vga_probe`, the serial log (drivers/serial.c), drawing by the editor, the game,
-- the login and the installer, the assembly files, and of kernel/kernel.c the order of the whole
-- of `kmain` and its idle task. A block device (Fs/Device) is still a parameter of the file system
-- on the disk: Drivers/Ata, whose reads change the controller, does not fill it yet.
pub mod Common
pub mod Libc
pub mod Kernel
pub mod Fs
pub mod Shell
pub mod Drivers
pub mod Pkg
