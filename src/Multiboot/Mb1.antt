-- ===== src/Multiboot/Mb1.antt =====
-- src/multiboot.rs: `build_mb1_info`, as the stores that it makes at offsets from `INFO_AT`.
pub mod Entries
pub mod Kernel
pub mod Modules
use bang.Common.{
  ℕ, zero, suc, ◌+◌, ◌-◌, ◌*◌, ◌/◌, ◌%◌, ◌^◌, min, Bool, true, false, ◌&&◌, ◌||◌, List, [], ◌∷◌,
  ◌++◌, ltb, leb, ◌==◌, if◌then◌else◌, Memory, write, fill, length, take, le_bytes,
}
use bang.Modules.{ModuleInfo}
use bang.Multiboot.{MemoryDescriptor, max_modules, info_size, efi_memtype_to_mb, byte_length}

-- The sizes of the packed structures, and where each part goes.
abbrev pub mb1_entry_size : ℕ
mb1_entry_size = 24

abbrev pub mb1_module_size : ℕ
mb1_module_size = 16

abbrev pub mb1_modules_at : ℕ
mb1_modules_at = 64

abbrev pub mb1_names_at : ℕ
mb1_names_at = mb1_modules_at + max_modules * mb1_module_size

abbrev pub mb1_name_max : ℕ
mb1_name_max = 64

abbrev pub mb1_mmap_at : ℕ
mb1_mmap_at = mb1_names_at + max_modules * mb1_name_max

abbrev pub mb1_mmap_max : ℕ
mb1_mmap_max = (info_size - mb1_mmap_at) / mb1_entry_size

-- The variables of the loop over the memory map.
pub record Map1 : Type 0 where
  pub count : ℕ
  pub lower : ℕ
  pub upper : ℕ
  pub mem : Memory

abbrev pub mb1_entry_bytes : MemoryDescriptor → List ℕ
mb1_entry_bytes d =
    le_bytes 4 (mb1_entry_size - 4)
    ++ (le_bytes 8 d.phys_start
        ++ (le_bytes 8 (byte_length d) ++ le_bytes 4 (efi_memtype_to_mb d.ty)))

-- The kilobytes that an entry adds below and above one megabyte.
unfoldable pub count_memory : MemoryDescriptor → Map1 → Map1
count_memory d s =
    let kb = byte_length d / 1024 in
    if efi_memtype_to_mb d.ty == 1
    then (if ltb d.phys_start 0x10_0000
        then record s { lower = (s.lower + kb) % 2 ^ 64 }
        else if d.phys_start == 0x10_0000 || (ltb 0x10_0000 d.phys_start && ltb 0 s.upper)
        then record s { upper = (s.upper + kb) % 2 ^ 64 }
        else s)
    else s

unfoldable pub write_map1 : ℕ → List MemoryDescriptor → Map1 → Map1
unfolding count_memory
write_map1 base [] s = s
write_map1 base (d ∷ ds) s =
    let written = record s {
      count = s.count + 1;
      mem = write (base + mb1_mmap_at + s.count * mb1_entry_size) (mb1_entry_bytes d) s.mem;
    } in
    let rest = write_map1 base ds (count_memory d written) in
    if leb mb1_mmap_max s.count then s else rest

-- `while len < MB1_NAME_MAX - 1 && *from.add(len) != 0`, with `room` bytes left.
unfoldable pub copy_name : ℕ → ℕ → ℕ → Memory → Memory
copy_name zero to from m = m
copy_name (suc room) to from m =
    let rest = copy_name room (to + 1) (from + 1) (write to (m from ∷ []) m) in
    if m from == 0 then m else rest

abbrev pub mb1_module_bytes : ModuleInfo → ℕ → List ℕ
mb1_module_bytes mi name =
    le_bytes 4 mi.phys_start
    ++ (le_bytes 4 ((mi.phys_start + mi.size) % 2 ^ 64) ++ (le_bytes 4 name ++ le_bytes 4 0))

abbrev pub name_at : ℕ → ℕ → ℕ
name_at base i = base + mb1_names_at + i * mb1_name_max

-- The body of the loop over the modules.
unfoldable pub write_module1 : ℕ → ℕ → ModuleInfo → Memory → Memory
unfolding copy_name
write_module1 base i mi m =
    let named = copy_name (mb1_name_max - 1) (name_at base i) mi.name_ptr m in
    write (base + mb1_modules_at + i * mb1_module_size) (mb1_module_bytes mi (name_at base i)) named

unfoldable pub write_modules1 : ℕ → List ModuleInfo → ℕ → Memory → Memory
unfolding write_module1
write_modules1 base [] i m = m
write_modules1 base (mi ∷ ms) i m = write_modules1 base ms (i + 1) (write_module1 base i mi m)

-- The fields of `MultibootInfo`, in order.
abbrev pub mb1_info_bytes : ℕ → ℕ → Map1 → List ℕ
mb1_info_bytes base mod_count s =
    le_bytes 4 (if ltb 0 mod_count then 0x1 + 0x40 + 0x8 else 0x1 + 0x40)
    ++ (le_bytes 4 (if ltb 640 s.lower then 640 else s.lower)
        ++ (le_bytes 4 s.upper
            ++ (le_bytes 4 0
                ++ (le_bytes 4 0
                    ++ (le_bytes 4 mod_count
                        ++ (le_bytes 4 (if ltb 0 mod_count then base + mb1_modules_at else 0)
                            ++ (le_bytes 8 0
                                ++ (le_bytes 8 0
                                    ++ (le_bytes 4 (s.count * mb1_entry_size)
                                        ++ le_bytes 4 (base + mb1_mmap_at))))))))))

-- `build_mb1_info` with `INFO_AT = base`.
unfoldable pub build_mb1_info : ℕ → List MemoryDescriptor → List ModuleInfo → Memory → ℕ × Memory
unfolding write_map1 write_modules1
build_mb1_info base ds modules m =
    let mapped =
      write_map1 base ds
        (record { count = 0; lower = 0; upper = 0; mem = fill base 0 info_size m }) in
    let mods = take max_modules modules in
    let m' = write_modules1 base mods 0 mapped.mem in
    (base % 2 ^ 32, write base (mb1_info_bytes base (min (length modules) max_modules) mapped) m')
