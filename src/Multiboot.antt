-- ===== src/Multiboot.antt =====
-- src/multiboot.rs: what both information structures share, the constants, the memory map
-- and the stores at byte offsets. The builders are in the children.
pub mod Buffer
pub mod Mb1
pub mod Mb2
pub mod Reserve
pub mod Acpi
use bang.Common.{ℕ, ◌+◌, ◌-◌, ◌*◌, ◌/◌, ◌%◌, ◌^◌, List, le_bytes, Memory, write}

-- `MemoryType` of the `uefi` crate: the values that the source names, and the others.
pub data MemoryType : Type 0 where
  loader_code loader_data boot_services_code boot_services_data conventional : MemoryType
  acpi_reclaim acpi_non_volatile : MemoryType
  other : ℕ → MemoryType

pub record MemoryDescriptor : Type 0 where
  pub ty : MemoryType
  pub phys_start : ℕ
  pub page_count : ℕ

-- `len` is 20 or 36, the bytes of the structure that are copied out of `bytes`.
pub record Rsdp : Type 0 where
  pub bytes : List ℕ
  pub len : ℕ

abbrev pub rsdp_v1 : ℕ
rsdp_v1 = 20

abbrev pub rsdp_v2 : ℕ
rsdp_v2 = 36

abbrev pub max_modules : ℕ
max_modules = 32

abbrev pub info_pages : ℕ
info_pages = 4

abbrev pub info_size : ℕ
info_size = info_pages * 4096

unfoldable pub efi_memtype_to_mb : MemoryType → ℕ
efi_memtype_to_mb conventional = 1
efi_memtype_to_mb loader_code = 1
efi_memtype_to_mb loader_data = 1
efi_memtype_to_mb boot_services_code = 1
efi_memtype_to_mb boot_services_data = 1
efi_memtype_to_mb acpi_reclaim = 3
efi_memtype_to_mb acpi_non_volatile = 4
efi_memtype_to_mb (other n) = 2

-- `desc.page_count * 4096`, in 64 bits.
abbrev pub byte_length : MemoryDescriptor → ℕ
byte_length d = d.page_count * 4096 % 2 ^ 64

unfoldable pub write_u32 : ℕ → ℕ → ℕ → Memory → Memory
write_u32 base offset val = write (base + offset) (le_bytes 4 val)

unfoldable pub write_u64 : ℕ → ℕ → ℕ → Memory → Memory
write_u64 base offset val = write (base + offset) (le_bytes 8 val)

-- `*base.add(offset) = val`
unfoldable pub write_u8 : ℕ → ℕ → ℕ → Memory → Memory
write_u8 base offset val = write (base + offset) (le_bytes 1 val)

-- `(pos + 7) & !7`
abbrev pub align8 : ℕ → ℕ
align8 pos = pos + 7 - (pos + 7) % 8
