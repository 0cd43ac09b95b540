-- ===== src/Elf.antt =====
-- src/elf.rs: the constants, the reads from the file's bytes, and what a loaded kernel is.
pub mod Detect
pub mod Kernel
pub mod Segment
use bang.Common.{ℕ, ◌+◌, Option, none, some, List, leb, if◌then◌else◌, length, take, drop, from_le}

abbrev pub mb1_header_magic : ℕ
mb1_header_magic = 0x1bad_b002

abbrev pub mb2_header_magic : ℕ
mb2_header_magic = 0xe852_50d6

pub data BootMode : Type 0 where
  protected32 long64 : BootMode

pub record KernelInfo : Type 0 where
  pub entry_point : ℕ
  pub mb_version : ℕ
  pub boot_mode : BootMode

-- The little-endian value of `width` bytes at `off`, whether they are there or not.
abbrev pub word : ℕ → List ℕ → ℕ → ℕ
word width buf off = from_le (take width (drop off buf))

-- `from_le_bytes(buf[off..off + 4])`; `none` is the panic of a slice out of range.
unfoldable pub u32_at : List ℕ → ℕ → Option ℕ
u32_at buf off = if leb (off + 4) (length buf) then some (word 4 buf off) else none
