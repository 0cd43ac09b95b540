-- ===== src/Tests/Mb1.antt =====
-- Runs of the Multiboot1 structure's builder.
use bang.Common.{◌≡◌, refl, [], ◌∷◌, ◌++◌, read, write}
use bang.Common.Text.{codes}
use bang.Multiboot.{efi_memtype_to_mb}
use bang.Multiboot.Mb1.{write_map1, count_memory, copy_name}
use bang.Tests.Multiboot.{descriptors, memory}

-- The kilobytes of the memory below one megabyte; what is above it does not begin there.
lower-descriptors :
    (write_map1 0 descriptors (record { count = 0; lower = 0; upper = 0; mem = memory })).lower
    ≡ 636
unfolding write_map1 count_memory efi_memtype_to_mb
lower-descriptors = refl

copy_name-vfs : read 4 0x9000 (copy_name 3 0x9000 0x5000 memory) ≡ codes "vfs" ++ 0xcc ∷ []
unfolding copy_name write
copy_name-vfs = refl
