-- ===== src/Tests/Multiboot.antt =====
-- Runs of the boot information's builder.
use bang.Common.{
  ℕ, ◌+◌, ◌%◌, ◌^◌, ◌≤◌, ◌<◌, ◌≡◌, refl, inl, List, [], ◌∷◌, ◌++◌, Option, none, some, arith,
  Memory, read, write, length, replicate,
}
use bang.Common.Text.{codes}
use bang.Gop.{FbInfo, rgb, query_gop}
use bang.Multiboot.{MemoryDescriptor, Rsdp, conventional, acpi_reclaim, info_size}
use bang.Multiboot.Buffer.{Holds}
use bang.Multiboot.Mb2.{build_mb2_info, name_length}
use bang.Multiboot.Mb2.Complete.{full_body}
use bang.Multiboot.Mb2.Kernel.{parse_info, parse_info-build_mb2_info}
use bang.Multiboot.Mb2.Names.{HasName, infos}
use bang.Multiboot.Mb2.Refinement.{build_mb2_info-Holds}
use bang.Multiboot.Mb2.Tags.{Named, encode_info, sent_tags, body_tags, total_size, end_tag}
use bang.Multiboot.Mb2.Unterminated.{build_mb2_info_unterminated}

abbrev pub info_at : ℕ
info_at = 0x10_0000

abbrev pub descriptors : List MemoryDescriptor
descriptors =
    record { ty = conventional; phys_start = 0; page_count = 159 }
    ∷ record { ty = acpi_reclaim; phys_start = 0x7fe_0000; page_count = 32 }
    ∷ []

abbrev pub screen : Option FbInfo
screen =
    query_gop (
      some
        record { width = 1024; height = 768; format = rgb; stride = 1024; fb_base = 0x8000_0000 })

abbrev pub vfs : Named
vfs = record {
  info = record { name_ptr = 0x5000; phys_start = 0x20_0000; size = 9000 };
  name = codes "vfs";
}

abbrev pub pointer : Option Rsdp
pointer = some record { bytes = codes "RSD PTR " ++ replicate 12 7; len = 20 }

-- Memory that the firmware left full of rubbish, with the module's name in it.
abbrev pub memory : Memory
memory = write 0x5000 (codes "vfs" ++ 0 ∷ []) (λ a. 0xcc)

name_length-memory : name_length 5 memory 0x5000 ≡ some 3
unfolding name_length write
name_length-memory = refl

pub vfs-HasName : HasName info_at memory vfs
unfolding write
vfs-HasName = record {
  bytes = refl;
  nonzero = omega arith;
  short = omega arith;
  apart = inl (omega arith);
}

build_mb2_info-Holds_example :
    (m' : Memory) × (build_mb2_info info_at descriptors screen (infos (vfs ∷ [])) pointer memory
      ≡ some (info_at % 2 ^ 32, m'))
    × Holds info_at
        (total_size (sent_tags descriptors screen (vfs ∷ []) pointer))
        (encode_info (sent_tags descriptors screen (vfs ∷ []) pointer))
        memory
        m'
build_mb2_info-Holds_example =
    build_mb2_info-Holds info_at descriptors screen (vfs ∷ []) pointer memory refl (vfs-HasName, tt)

body_fits : total_size (full_body descriptors screen (vfs ∷ []) pointer ++ end_tag ∷ []) ≤ 512
unfolding query_gop
body_fits = omega arith

few_tags : length (full_body descriptors screen (vfs ∷ []) pointer) < 9
unfolding query_gop
few_tags = omega arith

parse_info-build_mb2_info_example :
    (m' : Memory) × (build_mb2_info info_at descriptors screen (infos (vfs ∷ [])) pointer memory
      ≡ some (info_at % 2 ^ 32, m'))
    × (parse_info 9 (read 512 info_at m')
        ≡ some (full_body descriptors screen (vfs ∷ []) pointer ++ end_tag ∷ []))
parse_info-build_mb2_info_example =
    parse_info-build_mb2_info info_at descriptors screen (vfs ∷ []) pointer memory 9 512 refl
      (vfs-HasName, tt) few_tags body_fits (omega arith)

-- A memory map that leaves forty bytes, and a module whose tag takes them all.
abbrev long_name : Named
long_name = record {
  info = record { name_ptr = 0x5000; phys_start = 0x20_0000; size = 9000 };
  name = codes "filesystem-driver.el";
}

abbrev full_map : List MemoryDescriptor
full_map = replicate 680 record { ty = conventional; phys_start = 0; page_count = 1 }

abbrev long_memory : Memory
long_memory = write 0x5000 (codes "filesystem-driver.el" ++ 0 ∷ []) (λ a. 0)

long_name-HasName : HasName info_at long_memory long_name
unfolding write
long_name-HasName = record {
  bytes = refl;
  nonzero = omega arith;
  short = omega arith;
  apart = inl (omega arith);
}

full_map_over : info_size < total_size (body_tags full_map none (long_name ∷ []) none) + 8
unfolding body_tags
full_map_over = omega arith

build_mb2_info_unterminated_example :
    (m' : Memory) × (build_mb2_info info_at full_map none (infos (long_name ∷ [])) none long_memory
      ≡ some (info_at % 2 ^ 32, m'))
    × (parse_info 9 (read (total_size (body_tags full_map none (long_name ∷ []) none)) info_at m')
        ≡ none)
build_mb2_info_unterminated_example =
    build_mb2_info_unterminated info_at full_map none (long_name ∷ []) none long_memory 9 tt
      (long_name-HasName, tt) full_map_over
