-- ===== src/Multiboot/Mb2/Unterminated.antt =====
-- src/multiboot.rs, `build_mb2_info`: the structure without its terminating tag. Only the ACPI tag
-- keeps room for the terminator; modules and the framebuffer may fill the region to its end.
use bang.Common.{
  ℕ, ◌+◌, ◌%◌, ◌^◌, ◌≤◌, ◌<◌, ◌≡◌, ◌∙◌, subst, List, [], ◌∷◌, ◌++◌, Option, none, some, arith,
  Memory, read, All, All-append, append-nil, take, length, leb, ltb, Bool-cases, inl, inr,
}
use bang.Gop.{FbInfo}
use bang.Multiboot.{MemoryDescriptor, Rsdp, info_size}
use bang.Multiboot.Buffer.{Holds}
use bang.Multiboot.Mb2.{build_mb2_info}
use bang.Multiboot.Mb2.Kernel.{IsBodyKind, All-IsBody, parse_info, parse_info-read, parse_tags-none}
use bang.Multiboot.Mb2.Names.{HasName, infos}
use bang.Multiboot.Mb2.Refinement.{build_mb2_info-Holds}
use bang.Multiboot.Mb2.Stages.{HasBytes, add_over}
use bang.Multiboot.Mb2.Tags.{
  Tag, Named, encode_info, encode_tags, total_size, end_tag, module_tag, add, add_modules,
  add_framebuffer, add_acpi, body_tags, sent_tags, mmap, mmap_capacity, tag_size, framebuffer, acpi,
}

add-IsBodyKind :
    (reserve : ℕ) (t : Tag) (ts : List Tag)
    → IsBodyKind t
    → All IsBodyKind ts
    → All IsBodyKind (add reserve t ts)
add-IsBodyKind reserve t ts k h =
    elim (Bool-cases (leb (total_size ts + tag_size t + reserve) info_size)) [
      | inl fits ↦ rw fits (All-append IsBodyKind ts (t ∷ []) h (k, tt))
      | inr over ↦ rw over h
    ]

add_modules-IsBodyKind :
    (nms : List Named) (ts : List Tag) → All IsBodyKind ts → All IsBodyKind (add_modules nms ts)
unfolding add_modules
add_modules-IsBodyKind [] ts h = h
add_modules-IsBodyKind (nm ∷ nms) ts h =
    elim (Bool-cases (ltb info_size (total_size ts + tag_size (module_tag nm)))) [
      | inl over ↦ rw over h
      | inr fits ↦ rw fits (
          add_modules-IsBodyKind nms (ts ++ module_tag nm ∷ [])
            (All-append IsBodyKind ts (module_tag nm ∷ []) h (omega arith)))
    ]

add_framebuffer-IsBodyKind :
    (fb : Option FbInfo) (ts : List Tag)
    → All IsBodyKind ts
    → All IsBodyKind (add_framebuffer fb ts)
add_framebuffer-IsBodyKind none ts h = h
add_framebuffer-IsBodyKind (some fb) ts h = add-IsBodyKind 0 (framebuffer fb) ts (omega arith) h

add_acpi-IsBodyKind :
    (rsdp : Option Rsdp) (ts : List Tag) → All IsBodyKind ts → All IsBodyKind (add_acpi rsdp ts)
add_acpi-IsBodyKind none ts h = h
add_acpi-IsBodyKind (some r) ts h = add-IsBodyKind 8 (acpi r) ts (ground arith) h

body_tags-IsBodyKind :
    (ds : List MemoryDescriptor) (fb : Option FbInfo) (nms : List Named) (rsdp : Option Rsdp)
    → All IsBodyKind (body_tags ds fb nms rsdp)
unfolding body_tags
body_tags-IsBodyKind ds fb nms rsdp =
    let mapped = add_modules-IsBodyKind nms (mmap (take mmap_capacity ds) ∷ []) (omega arith) in
    add_acpi-IsBodyKind rsdp _ (add_framebuffer-IsBodyKind fb _ mapped)

parse_info-unterminated :
    {base : ℕ} {m m' : Memory} (fuel : ℕ) (ts : List Tag)
    → All IsBodyKind ts
    → Holds base (total_size ts) (encode_info ts) m m'
    → parse_info fuel (read (total_size ts) base m') ≡ none
parse_info-unterminated fuel ts kinds h =
    let room : total_size ts ≤ info_size = h.fits in
    let inside : length (encode_tags (ts ++ [])) ≤ info_size = rw append-nil (omega arith) in
    parse_info-read fuel (total_size ts) ts (omega arith) room h
    ∙ parse_tags-none fuel ts (All-IsBody ts [] kinds inside)

-- For an ACPI pointer whose copy is as long as it says and modules whose names are NUL-terminated,
-- shorter than 4096 bytes and outside the region: where the tags before the terminator leave less
-- than eight bytes of the region, the builder still returns an address as if it had succeeded, but
-- no kernel that walks the tags, with any fuel, finds a terminating tag.
pub build_mb2_info_unterminated :
    (base : ℕ) (ds : List MemoryDescriptor) (fb : Option FbInfo) (nms : List Named)
    (rsdp : Option Rsdp) (m : Memory) (fuel : ℕ)
    → HasBytes rsdp
    → All (HasName base m) nms
    → info_size < total_size (body_tags ds fb nms rsdp) + 8
    → (m' : Memory) × (build_mb2_info base ds fb (infos nms) rsdp m ≡ some (base % 2 ^ 32, m'))
      × (parse_info fuel (read (total_size (body_tags ds fb nms rsdp)) base m') ≡ none)
unfolding sent_tags
build_mb2_info_unterminated base ds fb nms rsdp m fuel has_bytes has_names over =
    let (m', e, h) = build_mb2_info-Holds base ds fb nms rsdp m has_bytes has_names in
    let left_out = add_over 0 end_tag (body_tags ds fb nms rsdp) (omega arith) in
    (
      m',
      e,
      parse_info-unterminated fuel (body_tags ds fb nms rsdp) (body_tags-IsBodyKind ds fb nms rsdp)
          (subst (λ ts. Holds base (total_size ts) (encode_info ts) m m') left_out h),
    )
