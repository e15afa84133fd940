-- ===== src/Debug.antt =====
-- debug.rs: the aids that report the heap and the file system. Those that print a text or a number are
-- in the model of uart.rs.
use corrosion.Prelude.{ℕ}
use corrosion.Machine.{Cmd}
use corrosion.Alloc.Bytes.{ByteGrainAllocator}
use corrosion.Alloc.Bytes.Print.{ByteReport}
use corrosion.Alloc.Pages.Print.{PageReport}
use corrosion.Alloc.Init.{debug_heap}
use corrosion.Alloc.Pages.{Layout}
use corrosion.Minixfs3.{SuperBlock}
use corrosion.Minixfs3.Inodes.{FsReport, debug_fs}
use corrosion.Minixfs3.Read.{BlockRead}

abbrev pub heap : Layout → ByteGrainAllocator → (fuel : ℕ) → Cmd (PageReport × ByteReport)
heap = debug_heap

abbrev pub fs : BlockRead → ByteGrainAllocator → SuperBlock → Cmd FsReport
fs = debug_fs
