-- ===== src/Lib.antt =====
-- corrosion, a RISC-V kernel: its memory, its allocators, its interrupts, its virtio block device,
-- its file system, its serial port and its start.
--
-- The parts, from the bottom up, and where their models are:
--
--   Machine        What the kernel's code runs on. A memory maps addresses to bytes; words are
--                  little-endian. `Run A` is a result with the memory it leaves, a panic, or a loop
--                  that has used up the rounds which the model gives it. The Makefile builds the dev
--                  profile, so an overflow of `+`, `-` and `*` is a panic; `wrapping_add` is written
--                  with its modulus. `do` sequences the steps, as in the source.
--   Memory         src/memory.rs: `align_val` and `memcpy`.
--   Config         src/config.rs: the texts and their colours.
--   Uart           src/uart.rs, the `print` macros of src/main.rs, and the functions of src/debug.rs
--                  that print a text or a number. Output is the trace of writes to the port.
--   Alloc          src/alloc.rs. `Alloc.Bytes` is `ByteGrainAllocator` (`kmalloc`, `kzmalloc`,
--                  `kfree`, `coalesce`), `Alloc.Flags` its header words, `Alloc.Pages` is
--                  `PageGrainAllocator` (`init`, `alloc`, `zalloc`), `Alloc.PageFlags` its flag
--                  bytes, and `Alloc.Init` has the start of both and the public functions. The two
--                  `print` are `Alloc.Pages.Print` and `Alloc.Bytes.Print`: what they report, as
--                  rows. The heap of `Alloc.Bytes.Chunks` describes an arena as a list of chunks,
--                  and `IsTable` of `Alloc.Pages.Table` a page table as free pages and closed runs.
--   Block          src/block.rs. `Block` has the descriptors, the rings and `BlockDevice`:
--                  `fill_next_descriptor`, `block_header`, `block_data`, `block_status`,
--                  `block_notify` and `use_queue` keep their names, and `block_submit` is
--                  `block_operation` up to the loop in which it waits. `Block.Wait` has the whole:
--                  what the device and its interrupt do during the wait is a list of events, and
--                  `Completes` in `Block.Wait.Device` is what the device promises. `Block.Setup` is
--                  `BlockDevice::init`. `Block.Static` is `block::read` with its static variable.
--   Virtio         src/virtio.rs: the scan for devices, with what it sends to the port, and the dispatch
--                  of their interrupts.
--   Plic           src/plic.rs: the interrupt controller's set-up and its handler.
--   Trap           src/trap.rs: `machine_trap_rust`, whose match is `async_trap` and `sync_trap`.
--   Buffer         src/buffer.rs: blocks of the byte-grain allocator with an owner. `Buffer.Print` has
--                  the three prints; a `char` is sent in UTF-8.
--   Minixfs3       src/minixfs3.rs: the superblock, where the inodes are, the bitmaps, and in
--                  `Minixfs3.Read` the reading of a file's zones: `ReadState` and `read`, whose loops
--                  `zones_loop` and `blocks_loop` take what follows them as an argument, since a
--                  `return` in them leaves the whole function. `block::read` is an argument of
--                  these definitions, and `Reads` in `Minixfs3.Read.Data` is what they rely on;
--                  `Minixfs3.Read.Driven` has it for `block::read` of `Block.Static`, and
--                  `DeviceReads` there is what the device does. A file's zones, the indirect ones
--                  included, are `file_zones` in `Minixfs3.Read.Chain`. `Minixfs3.Inodes` has `get_inode`, `get_dirents`,
--                  `read_file` and the numbers of `debug_fs`, over the same argument.
--   Kernel         src/main.rs: `kernel_init`, what the panic handler sends, the end of `kernel_main`,
--                  and the shutdown with its word from src/assembly.rs.
--   Debug          src/debug.rs: `heap` and `fs`.
--
-- How they interact: a block operation takes its request from the byte-grain allocator, chains it
-- into the virtqueue and waits for its slot; the device's interrupt goes from the trap handler over
-- the interrupt controller and the virtio dispatch to `use_queue`, which marks the slot as ready and
-- gives the request back to the allocator. The static variables (the allocators, `BLOCK_DEVICE`,
-- `VIRTIO_DEVICE_TYPES`) are arguments and results of the functions that use them.
--
-- What a device's registers answer (the claim register, mtime, the virtio registers) is an argument;
-- what is written to them is part of the result, where anything depends on it (not
-- the write to the notify register, and the lines that the dispatch prints). The linker's symbols
-- are the fields of `Alloc.Pages.Layout`.
--
-- Rounds: the loops of `kmalloc` and `coalesce` get one for each byte of the arena and one more, and
-- each passes a header at least, as does the loop of the byte-grain `print`. The page-grain `print`
-- gets its rounds as an argument, since its inner loop has no test for the end of the table; on a
-- table that satisfies `IsTable` one for each page and one more are enough. The loop of `use_queue`
-- gets 2 ^ 16, the number of values of its counter; the wait of `block_operation` ends with its events
-- or before. All other loops recurse on a count that the source computes before them.
--
-- Not modelled: in src/minixfs3.rs `cache_tree` and `init_inode_cache`, whose strings and tree nodes
-- come from the arena in which the buffer of the directory lies that they have dropped, and `write`,
-- which is a `todo!`; what other code prints apart from the functions named above; src/test.rs; the
-- assembly other than the word of the shutdown (src/assembly.rs, src/asm, src/cfg); and the refusal of
-- misaligned accesses by a debug build. Padding of structures in memory only counts in offsets.
mod Prelude
pub mod Machine
pub mod Memory
pub mod Config
pub mod Uart
pub mod Alloc
pub mod Block
pub mod Virtio
pub mod Plic
pub mod Trap
pub mod Buffer
pub mod Minixfs3
pub mod Kernel
pub mod Debug
