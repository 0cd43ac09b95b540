-- ===== src/Multiboot/Mb2.antt =====
-- src/multiboot.rs: `build_mb2_info`, as the stores that it makes at offsets from `INFO_AT`.
pub mod Complete
pub mod Entries
pub mod Kernel
pub mod Names
pub mod Refinement
pub mod Stages
pub mod Tags
pub mod Unterminated
use bang.Common.{
  ℕ, zero, suc, ◌+◌, ◌-◌, ◌*◌, ◌%◌, ◌^◌, List, [], ◌∷◌, Option, none, some, ◌>>=◌, ltb, leb, ◌==◌,
  if◌then◌else◌, Memory, write, fill, read, take,
}
use bang.Gop.{FbInfo}
use bang.Modules.{ModuleInfo}
use bang.Multiboot.{
  MemoryDescriptor, Rsdp, rsdp_v2, info_size, efi_memtype_to_mb, byte_length, write_u32, write_u64,
  write_u8, align8,
}

abbrev pub tag_end : ℕ
tag_end = 0

abbrev pub tag_module : ℕ
tag_module = 3

abbrev pub tag_mmap : ℕ
tag_mmap = 6

abbrev pub tag_framebuffer : ℕ
tag_framebuffer = 8

abbrev pub tag_acpi_old : ℕ
tag_acpi_old = 14

abbrev pub tag_acpi_new : ℕ
tag_acpi_new = 15

-- `size_of::<Mb2MmapEntry>()`
abbrev pub mmap_entry_size : ℕ
mmap_entry_size = 24

-- The builder's state between two stores.
pub record Out : Type 0 where
  pub pos : ℕ
  pub mem : Memory

abbrev pub out_at : ℕ → Memory → Out
out_at pos mem = record { pos = pos; mem = mem }

-- The four stores of one memory map entry.
unfoldable pub write_mmap_entry : ℕ → ℕ → MemoryDescriptor → Memory → Memory
write_mmap_entry base pos d m =
    let m1 = write_u64 base pos d.phys_start m in
    let m2 = write_u64 base (pos + 8) (byte_length d) m1 in
    let m3 = write_u32 base (pos + 16) (efi_memtype_to_mb d.ty) m2 in write_u32 base (pos + 20) 0 m3

unfoldable pub write_mmap_entries : ℕ → List MemoryDescriptor → Out → Out
write_mmap_entries base [] o = o
write_mmap_entries base (d ∷ ds) o =
    let rest =
      write_mmap_entries base ds
        (out_at (o.pos + mmap_entry_size) (write_mmap_entry base o.pos d o.mem)) in
    if ltb info_size (o.pos + mmap_entry_size) then o else rest

-- The memory map tag: the loop, then its size into the placeholder, then the alignment.
unfoldable pub write_mmap : ℕ → List MemoryDescriptor → Out → Out
write_mmap base ds o =
    let m1 = write_u32 base o.pos tag_mmap o.mem in
    let m2 = write_u32 base (o.pos + 8) mmap_entry_size m1 in
    let m3 = write_u32 base (o.pos + 12) 0 m2 in
    let filled = write_mmap_entries base ds (out_at (o.pos + 16) m3) in
    out_at (align8 filled.pos) (write_u32 base (o.pos + 4) (filled.pos - o.pos) filled.mem)

-- `while *name_addr.add(name_len) != 0`, on fuel; `none` means that the fuel ran out.
unfoldable pub name_length : ℕ → Memory → ℕ → Option ℕ
name_length zero m at = none
name_length (suc fuel) m at =
    let rest = (do n ← name_length fuel m (at + 1); some (suc n)) in
    if m at == 0 then some 0 else rest

-- The names stand in a buffer of 4096 bytes.
abbrev pub name_fuel : ℕ
name_fuel = 4096

unfoldable pub write_module_fields : ℕ → ℕ → ModuleInfo → ℕ → Memory → Memory
write_module_fields base pos mi tag_size m =
    let m1 = write_u32 base pos tag_module m in
    let m2 = write_u32 base (pos + 4) tag_size m1 in
    let m3 = write_u32 base (pos + 8) mi.phys_start m2 in
    write_u32 base (pos + 12) ((mi.phys_start + mi.size) % 2 ^ 64) m3

-- The fields, then the name with its terminator, from the memory as it is by then.
unfoldable pub write_module : ℕ → ℕ → ModuleInfo → ℕ → Memory → Memory
write_module base pos mi name_len m =
    let m4 = write_module_fields base pos mi (4 + 4 + 4 + 4 + name_len + 1) m in
    write (base + (pos + 16)) (read (name_len + 1) mi.name_ptr m4) m4

-- One tag for each module, up to the first that does not fit.
unfoldable pub write_modules : ℕ → List ModuleInfo → Out → Option Out
write_modules base [] o = some o
write_modules base (mi ∷ ms) o = do
  name_len ← name_length name_fuel o.mem mi.name_ptr
  let tag_size = 4 + 4 + 4 + 4 + name_len + 1
  let rest =
      write_modules base ms
        (out_at (align8 (o.pos + tag_size)) (write_module base o.pos mi name_len o.mem))
  if ltb info_size (o.pos + tag_size) then some o else rest

unfoldable pub write_fb_fields : ℕ → ℕ → FbInfo → Memory → Memory
write_fb_fields base pos fb m =
    let m1 = write_u32 base pos tag_framebuffer m in
    let m2 = write_u32 base (pos + 0x04) 37 m1 in
    let m3 = write_u64 base (pos + 0x08) fb.addr m2 in
    let m4 = write_u32 base (pos + 0x10) fb.pitch m3 in
    let m5 = write_u32 base (pos + 0x14) fb.width m4 in
    let m6 = write_u32 base (pos + 0x18) fb.height m5 in
    let m7 = write_u8 base (pos + 0x1c) fb.bpp m6 in
    let m8 = write_u8 base (pos + 0x1d) fb.fb_type m7 in
    let m9 = write_u8 base (pos + 0x1e) 0 m8 in
    let m10 = write_u8 base (pos + 0x1f) fb.red_pos m9 in
    let m11 = write_u8 base (pos + 0x20) fb.red_size m10 in
    let m12 = write_u8 base (pos + 0x21) fb.green_pos m11 in
    let m13 = write_u8 base (pos + 0x22) fb.green_size m12 in
    let m14 = write_u8 base (pos + 0x23) fb.blue_pos m13 in
    write_u8 base (pos + 0x24) fb.blue_size m14

unfoldable pub write_framebuffer : ℕ → Option FbInfo → Out → Out
write_framebuffer base none o = o
write_framebuffer base (some fb) o =
    if leb (o.pos + 37) info_size
    then out_at (align8 (o.pos + 37)) (write_fb_fields base o.pos fb o.mem)
    else out_at (align8 o.pos) o.mem

unfoldable pub write_rsdp_fields : ℕ → ℕ → Rsdp → Memory → Memory
write_rsdp_fields base pos r m =
    let m1 = write_u32 base pos (if r.len == rsdp_v2 then tag_acpi_new else tag_acpi_old) m in
    let m2 = write_u32 base (pos + 4) (8 + r.len) m1 in
    write (base + (pos + 8)) (take r.len r.bytes) m2

unfoldable pub write_rsdp : ℕ → Option Rsdp → Out → Out
write_rsdp base none o = o
write_rsdp base (some r) o =
    if leb (o.pos + (8 + r.len) + 8) info_size
    then out_at (align8 (o.pos + (8 + r.len))) (write_rsdp_fields base o.pos r o.mem)
    else o

unfoldable pub write_end : ℕ → Out → Out
write_end base o =
    if leb (o.pos + 8) info_size
    then out_at (o.pos + 8) (write_u32 base (o.pos + 4) 8 (write_u32 base o.pos tag_end o.mem))
    else o

-- `build_mb2_info` with `INFO_AT = base`: the address returned, cut to 32 bits, and the memory.
unfoldable pub build_mb2_info :
    ℕ
    → List MemoryDescriptor
    → Option FbInfo
    → List ModuleInfo
    → Option Rsdp
    → Memory
    → Option (ℕ × Memory)
build_mb2_info base ds fb modules rsdp m = do
  let mapped = write_mmap base ds (out_at 8 (fill base 0 info_size m))
  placed ← write_modules base modules mapped
  let o = write_end base (write_rsdp base rsdp (write_framebuffer base fb placed))
  some (base % 2 ^ 32, write_u32 base 4 0 (write_u32 base 0 o.pos o.mem))
