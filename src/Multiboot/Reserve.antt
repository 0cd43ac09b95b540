-- ===== src/Multiboot/Reserve.antt =====
-- src/multiboot.rs: `reserve`, and that the address which the builder returns is the region's own.
use bang.Common.{ℕ, ◌%◌, ◌^◌, ◌≡◌, ap, ◌∙◌, Option, some, arith, Memory, List, All}
use bang.Gop.{FbInfo}
use bang.Multiboot.{MemoryDescriptor, Rsdp, info_pages}
use bang.Multiboot.Buffer.{Holds}
use bang.Multiboot.Mb2.{build_mb2_info}
use bang.Multiboot.Mb2.Names.{HasName, infos}
use bang.Multiboot.Mb2.Refinement.{build_mb2_info-Holds}
use bang.Multiboot.Mb2.Stages.{HasBytes}
use bang.Multiboot.Mb2.Tags.{Named, encode_info, sent_tags, total_size}
use bang.Uefi.{LowMemory}

-- `INFO_AT` after the call and the firmware's state; `none` is a refusal.
unfoldable pub reserve : {S : Type 0} → (ℕ → S → ℕ → Option (ℕ × S)) → S → Option (ℕ × S)
reserve allocate_below s = allocate_below 0xffff_ffff s info_pages

-- After a `reserve` that succeeded, with a firmware that respects the limit, an ACPI pointer whose
-- copy is as long as it says, and modules whose names are NUL-terminated, shorter than 4096 bytes
-- and outside the region: the address that `build_mb2_info` returns in 32 bits is that of the
-- region itself, which holds the encoded tags.
pub reserve-build_mb2_info :
    (low : LowMemory) (s s' : low.S) (base : ℕ) (ds : List MemoryDescriptor) (fb : Option FbInfo)
    (nms : List Named) (rsdp : Option Rsdp) (m : Memory)
    → reserve low.allocate_below s ≡ some (base, s')
    → HasBytes rsdp
    → All (HasName base m) nms
    → (m' : Memory) × (build_mb2_info base ds fb (infos nms) rsdp m ≡ some (base, m'))
      × Holds base
          (total_size (sent_tags ds fb nms rsdp))
          (encode_info (sent_tags ds fb nms rsdp))
          m
          m'
unfolding reserve
reserve-build_mb2_info low s s' base ds fb nms rsdp m got has_bytes has_names =
    let (m', e, h) = build_mb2_info-Holds base ds fb nms rsdp m has_bytes has_names in
    let below = low.ends_below 0xffff_ffff s s' info_pages base got in
    let whole : base % 2 ^ 32 ≡ base = omega (arith, below) in
    (m', e ∙ ap (λ a. some (a, m')) whole, h)
