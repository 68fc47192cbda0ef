-- ===== src/Lib.antt =====
-- Schwarz-Kernel: a 64-bit hobby kernel with keyboard and mouse drivers, a heap, a table of disks,
-- a read-only FAT32 driver behind drive letters, and a small C compiler.
--
-- The parts and how they interact. The keyboard's interrupt handler decodes scan codes into a ring
-- of code points that the shell empties. The heap serves the drivers, the tasks and the shell. The
-- storage layer keeps a table of at most eight disks, each with at most eight partitions found by a
-- scan of its MBR or GPT, and reads sectors through the driver of the disk. The FAT32 driver reads
-- volumes through the storage layer; the VFS mounts a volume under each drive letter from C on and
-- sends paths to the driver. The compiler turns the text of a program into tokens and code. The
-- mouse's interrupt handler moves the pointer, whose picture is drawn over the screen.
--
-- Prelude: Boolean tests, lists, texts and little-endian numbers that all parts share.
--   copy_cstr is the bounded copy that storage.cpp, fat32.cpp, vfs.cpp and (as my_strcpy)
--   compiler.cpp define.
-- Keyboard: keyboard.h and the ring of main.cpp.
--   Ring: kb_push, and the read of one key in the loop of shell.h. Maps: the scan code tables.
--   Decoder: keyboard_handle_byte, with the flags and key tables as the record Keyboard; a reboot
--   is an outcome. Queue and Invariant are about them.
-- Heap: memory.h and memory.cpp.
--   Store: the block headers by address and memory_init. Alloc: malloc, free, memory_free_bytes,
--   memory_used_bytes. Blocks, Carving, Allocation, Exclusion, Release, Merging, Freeing, Sums and
--   Init are about them, against the heap as a list of blocks.
-- Storage: storage.h and the part of storage.cpp above the drivers.
--   Disk: DiskInfo, DiskPartitionInfo, their names. FatKind: detect_fat_boot_sector_kind.
--   Scan, Mbr, Gpt, Table: detect_mbr_partitions, detect_gpt_partitions,
--   detect_partition_filesystems, detect_partition_table, over the record Scan, which has the disk
--   and the two buffers that all scans share. Registry: g_disks, g_disk_backends and g_disk_count,
--   disk_read_sector, storage_get_disk, storage_read_disk_sector, storage_read_partition_sector,
--   storage_register_usb_disk, storage_register_boot_volume. Detected:
--   register_ahci_disk, register_ide_disk, register_unsupported_controller. Record, Bounds, Scans,
--   Registration and Detected are about them.
-- Fat32: fat32.cpp.
--   Names, LongName: directory entries and their names. FilePath: next_component. Volume: the
--   mount, read_volume_sector, read_fat_entry. Directory: find_in_directory, resolve_path.
--   Listing, FileRead, Mount: fat32_list_dir, fat32_read_file, fat32_try_mount, fat32_stat_path.
--   Compare, Truncation, Contents, Walks and Components are about them.
-- Vfs: vfs.cpp. Drives: vfs_init, the search for a drive, vfs_list_dir, vfs_read_file, vfs_stat.
--   Mounted is about them.
-- Compiler: compiler.cpp but execute_compiled.
--   Errors: the error list. Tokens: types and tokens. Lexer, Lex: lex. Consumption, Stream and
--   Lexing are about it.
--   State: the globals of the parser and emitter as one record, actions on it, and how they end. Vars: the
--   variable table. Emitter: the emit functions and patch_jmp. Parser: peek, consume, expect, types
--   and what the parser emits for a variable. Primary, Expr: primary to expr. Clauses: block,
--   for_init, for_post. Statement, Control: statement. Program: parse_and_compile. A branch of a
--   source function that ends in a return is a function of its own.
--   Layout, Good: the stack and the rest of the state's invariant. Looks: actions that only look at
--   tokens ahead. Keeps, Advances: rules for actions that return and keep it, and for those that consume a token; EmitterKeeps, ParserKeeps,
--   PrimaryKeeps, ExprKeeps, ClausesKeeps, StatementKeeps, ControlKeeps, ProgramKeeps apply them.
--   Compiled, Jumps and Frames are about the outcome. Runs has a run of the compiler.
-- Mouse: mouse.h. Packet: mouse_handler_c, on the bytes that its ports read. Position and Moves are
--   about it. Cursor: draw_cursor, cursor_draw and cursor_erase. Restore is about the last two.
--
-- Conventions. Numbers are naturals, with the wrap-around of the source's type written out where a
-- value can reach it. A text is the list of its bytes without the terminator. A pointer into an
-- array is the array and an index. A function that fails returns an Option. A read of a sector
-- gives none where the driver fails; the drivers (the record Drivers) are a parameter.
--
-- Bounds and fuel. The walks over chains of clusters (search_chain, list_chain, copy_chain) and the
-- lexer's loop and the walks over the heap's blocks run on fuel; none, exhausted or
-- out_of_time means that it ran out.
-- The lexer is given a round for each character and one more, copy_chain a round for each byte of
-- the file and one more, and the walks over blocks one more than there are blocks; each is enough.
-- The walks over directories have no such bound, since the source has none. resolve_path is given a
-- round for each character of the path and one more, as each component takes a character. The
-- compiler's parser recurses and loops on one fuel: each nested call and each round of a loop
-- consumes a token first, so that more fuel than the 1024 tokens of token_stream is enough, whatever
-- they are. The source does not stay within its arrays: it reads past the end mark where a program
-- ends inside an expression, and it does not count the slots of var_table or the bytes behind a
-- jump that it patches. A run of the model ends at an access outside of token_stream, var_table or
-- code_buffer, with the index (out_of_bounds), since what follows depends on where the linker puts
-- the arrays.
--
-- Not modelled. The AHCI, IDE, NVMe and USB drivers and the PCI scan (register and DMA access), the
-- tasks, the initialisation of the mouse, the call of the compiled code (execute_compiled) and what
-- its instructions do, the shell's commands, drawing and fonts, descriptor tables and interrupt
-- entry, and the boot loader. In the records, the fields that only say that a slot is in use
-- (VfsDriveInfo, VfsDirEntry, Fat32Mount) are the slot's being there. A Var * of the compiler is
-- the variable as it was found, since what is read through it later does not change in between. The
-- bytes of a long-name array that the source leaves unset are zero.
pub mod Prelude
pub mod Keyboard
pub mod Heap
pub mod Storage
pub mod Fat32
pub mod Vfs
pub mod Compiler
pub mod Mouse
