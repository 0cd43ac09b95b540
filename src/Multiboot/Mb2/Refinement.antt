-- ===== src/Multiboot/Mb2/Refinement.antt =====
-- src/multiboot.rs: `build_mb2_info` implements the abstract list of tags.
use bang.Common.{
  ℕ, ◌%◌, ◌^◌, ◌≡◌, refl, ap, List, [], ◌∷◌, ◌++◌, Option, some, Memory, fill, le_bytes, replicate,
  take, All,
}
use bang.Gop.{FbInfo}
use bang.Multiboot.{MemoryDescriptor, Rsdp, info_size, write_u32}
use bang.Multiboot.Buffer.{Holds, Holds-congr, Holds-patch}
use bang.Multiboot.Mb2.{
  Out, out_at, write_mmap, write_framebuffer, write_rsdp, write_end, build_mb2_info,
}
use bang.Multiboot.Mb2.Entries.{write_mmap-Building}
use bang.Multiboot.Mb2.Names.{HasName, infos, write_modules-Building}
use bang.Multiboot.Mb2.Stages.{
  Building, Building-pos, HasBytes, write_framebuffer-Building, write_rsdp-Building,
  write_end-Building,
}
use bang.Multiboot.Mb2.Tags.{
  Tag, Named, mmap, mmap_capacity, encode_tags, encode_info, total_size, sent_tags,
}

-- The header is written last, over the eight bytes kept for it.
write_header-Holds :
    {base : ℕ} {ts : List Tag} {m : Memory} (o : Out)
    → Building base ts m o
    → Holds base
        (total_size ts)
        (encode_info ts)
        m
        (write_u32 base 4 0 (write_u32 base 0 o.pos o.mem))
unfolding write_u32
write_header-Holds {base} {ts} o b =
    let first =
      Holds-patch [] (replicate 4 0) (replicate 4 0 ++ encode_tags ts) 0 (le_bytes 4 o.pos) b.holds
        refl refl in
    let second =
      Holds-patch (le_bytes 4 o.pos) (replicate 4 0) (encode_tags ts) 4 (le_bytes 4 0) first refl
        refl in
    Holds-congr (Building-pos b)
      (ap (λ n. le_bytes 4 n ++ (le_bytes 4 0 ++ encode_tags ts)) (Building-pos b)) second

-- For every memory map, framebuffer, ACPI pointer whose copy is as long as it says, and list of
-- modules whose names are NUL-terminated, shorter than 4096 bytes and outside the region: the
-- builder returns `INFO_AT` cut to 32 bits; the region then holds exactly the encoding of the tags
-- sent, with zeros behind it; the encoding fits the region; and no byte outside the region has
-- changed.
pub build_mb2_info-Holds :
    (base : ℕ) (ds : List MemoryDescriptor) (fb : Option FbInfo) (nms : List Named)
    (rsdp : Option Rsdp) (m : Memory)
    → HasBytes rsdp
    → All (HasName base m) nms
    → (m' : Memory) × (build_mb2_info base ds fb (infos nms) rsdp m ≡ some (base % 2 ^ 32, m'))
      × Holds base
          (total_size (sent_tags ds fb nms rsdp))
          (encode_info (sent_tags ds fb nms rsdp))
          m
          m'
unfolding build_mb2_info sent_tags
build_mb2_info-Holds base ds fb nms rsdp m has_bytes has_names =
    let (placed, e, b) =
      write_modules-Building nms (mmap (take mmap_capacity ds) ∷ [])
        (write_mmap base ds (out_at 8 (fill base 0 info_size m))) has_names
        (write_mmap-Building ds) in
    let o = write_end base (write_rsdp base rsdp (write_framebuffer base fb placed)) in
    (
      write_u32 base 4 0 (write_u32 base 0 o.pos o.mem),
      rw e,
      write_header-Holds o (
          write_end-Building
            (write_rsdp-Building rsdp has_bytes (write_framebuffer-Building fb b))),
    )
