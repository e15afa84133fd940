-- ===== src/Alloc.antt =====
-- alloc.rs: the page-grain and the byte-grain allocator.
pub mod Flags
pub mod Bytes
pub mod PageFlags
pub mod Pages
pub mod Init
mod Tests
