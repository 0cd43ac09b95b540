-- ===== src/Multiboot/Mb1/Kernel.antt =====
-- src/multiboot.rs, `build_mb1_info`: what a Multiboot1 kernel finds at the address it is handed.
use bang.Common.{
  ℕ, ◌+◌, ◌*◌, ◌%◌, ◌^◌, ◌≤◌, ◌<◌, min, ◌≡◌, ◌⊎◌, List, [], ◌∷◌, ◌++◌, le_bytes, Memory, read,
  from_le, length, take, drop, ltb, if◌then◌else◌,
}
use bang.Multiboot.{MemoryDescriptor, info_size, efi_memtype_to_mb}
use bang.Multiboot.Mb1.Modules.{AreModules}
use bang.Multiboot.Mb2.Tags.{Named}

-- The 32-bit field at an offset of the structure.
abbrev pub field : Memory → ℕ → ℕ → ℕ
field m base off = from_le (take 4 (drop off (read 52 base m)))

-- The memory map as the Multiboot specification lays it out: each entry has the size of the rest of
-- it, the base address, the length and the type, in 4, 8, 8 and 4 bytes.
abbrev pub map_layout : List MemoryDescriptor → List ℕ
map_layout [] = []
map_layout (d ∷ ds) =
    le_bytes 4 20
    ++ le_bytes 8 d.phys_start
    ++ le_bytes 8 (d.page_count * 4096 % 2 ^ 64)
    ++ le_bytes 4 (efi_memtype_to_mb d.ty)
    ++ map_layout ds

-- The structure at `base` for a memory map and modules, of which at most 573 and 32 are passed on.
pub record IsMb1 (base : ℕ) (ds : List MemoryDescriptor) (nms : List Named) (before after : Memory)
    : Type 0 where
  pub flags : field after base 0 ≡ (if ltb 0 (length nms) then 0x49 else 0x41)
  pub mem_lower : field after base 4 ≤ 640
  pub mods_count : field after base 20 ≡ min (length nms) 32
  pub mods_addr : 0 < length nms → field after base 24 ≡ base + 64
  pub mmap_length : field after base 44 ≡ min 573 (length ds) * 24
  pub mmap_addr : field after base 48 ≡ base + 2624
  pub entries : read (min 573 (length ds) * 24) (base + 2624) after ≡ map_layout (take 573 ds)
  pub modules : AreModules base after 0 (take 32 nms)
  pub frame : (a : ℕ) → (a < base) ⊎ (base + info_size ≤ a) → after a ≡ before a
