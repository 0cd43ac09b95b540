-- ===== src/Linux/Params.antt =====
-- src/linux.rs: what the kernel finds in its `boot_params` page.
use bang.Common.{
  ℕ, ◌/◌, ◌%◌, ◌≤◌, ◌<◌, ◌≡◌, ◌⊎◌, Option, none, some, List, Memory, read, le_bytes, get_or,
}
use bang.Linux.{hdr_end}

-- The image's bytes stand in the page from `lo` to `hi`, as far as its header reaches.
abbrev HasHeader : List ℕ → ℕ → ℕ → Memory → Type 0
HasHeader image lo hi bp = (o : ℕ) → lo ≤ o → o < hi → o < hdr_end image → bp o ≡ get_or image o 0

-- The address and the size of an initrd, or what the image has there.
abbrev pub HasInitrd : List ℕ → Option (ℕ × ℕ) → Memory → Type 0
HasInitrd image none bp = HasHeader image 0x218 0x220 bp
HasInitrd image (some (at, len)) bp =
    (read 4 0x218 bp ≡ le_bytes 4 at) × (read 4 0x21c bp ≡ le_bytes 4 len)

-- No field that the loader fills in, the initrd's aside, nor the initrd's.
abbrev IsKept : ℕ → Type 0
IsKept o = (o < 0x210) ⊎ (((0x212 ≤ o) × (o < 0x214)) ⊎ (((0x220 ≤ o) × (o < 0x228)) ⊎ (0x22c ≤ o)))

pub record IsPage (image : List ℕ) (cmd_mem : ℕ) (initrd : Option (ℕ × ℕ)) (kernel_mem : ℕ)
    (bp : Memory) : Type 0 where
  pub command_line : read 4 0x228 bp ≡ le_bytes 4 cmd_mem
  pub ramdisk : HasInitrd image initrd bp
  pub code32_start : read 4 0x214 bp ≡ le_bytes 4 kernel_mem
  pub type_of_loader : bp 0x210 ≡ 0xff
  pub loaded_high : bp 0x211 % 2 ≡ 1
  pub other_flags : 0x211 < hdr_end image → bp 0x211 / 2 ≡ get_or image 0x211 0 / 2
  pub header : (o : ℕ) → 0x1f1 ≤ o → o < hdr_end image → IsKept o → bp o ≡ get_or image o 0
  pub blank : (o : ℕ) → (o < 0x1f1) ⊎ (hdr_end image ≤ o) → IsKept o → bp o ≡ 0
