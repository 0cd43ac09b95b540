-- ===== src/Multiboot/Mb2/Kernel.antt =====
-- src/multiboot.rs: the boot information as a Multiboot2 kernel reads it, tag by tag.
use bang.Common.{
  ℕ, zero, suc, ◌+◌, ◌-◌, ◌%◌, ◌^◌, ◌≤◌, ◌<◌, ◌≡◌, ◌≢◌, refl, sym, ap, ap₂, map, subst, ◌∙◌, ==_ne,
  List, [], ◌∷◌, ◌++◌, Option, none, some, ◌>>=◌, append_assoc, arith, Memory, read, from_le,
  le_bytes, length, replicate, take, drop, All, length-append, length-replicate, take-append,
  drop-append, ◌==◌, if◌then◌else◌, get_or, get_or_ext, get_or-read, length-read,
}
use bang.Gop.{FbInfo}
use bang.Multiboot.{MemoryDescriptor, Rsdp, info_size, align8}
use bang.Multiboot.Buffer.{Holds, get_or_zeros}
use bang.Multiboot.Mb2.Complete.{tag_size-le, optional, full_body, sent_tags_all}
use bang.Multiboot.Mb2.{build_mb2_info}
use bang.Multiboot.Mb2.Names.{HasName, infos}
use bang.Multiboot.Mb2.Refinement.{build_mb2_info-Holds}
use bang.Multiboot.Mb2.Stages.{HasBytes}
use bang.Multiboot.Mb2.Tags.{
  Tag, Named, tag_size, encode_tag, encode_tags, encode_info, total_size, framebuffer, acpi,
  module_tag, end_tag,
}

-- One tag at the head of `bs`, of this type and size; the next one is at a multiple of eight.
tag_at : (List ℕ → Option (List Tag)) → ℕ → ℕ → List ℕ → Option (List Tag)
tag_at next kind size bs =
    if kind == 0 then (if size == 8 then some (end_tag ∷ []) else none) else (do
      ts ← next (drop (align8 size) bs)
      some (record { kind = kind; payload = take (size - 8) (drop 8 bs) } ∷ ts))

-- Reads tags up to the terminating one; `none` is a terminator of another size, or none within the
-- fuel.
pub parse_tags : ℕ → List ℕ → Option (List Tag)
unfolding tag_at
parse_tags zero bs = none
parse_tags (suc fuel) bs =
    tag_at (parse_tags fuel) (from_le (take 4 bs)) (from_le (take 4 (drop 4 bs))) bs

-- The header's total size bounds what is read.
pub parse_info : ℕ → List ℕ → Option (List Tag)
unfolding parse_tags
parse_info fuel bs = parse_tags fuel (drop 8 (take (from_le (take 4 bs)) bs))

abbrev pub IsBody : Tag → Type 0
IsBody t = (t.kind ≢ 0) × (t.kind < 2 ^ 32) × (tag_size t < 2 ^ 32)

length-encode_tag : (t : Tag) → length (encode_tag t) ≡ align8 (tag_size t)
length-encode_tag t = omega (
  arith,
  length-append t.payload (replicate (align8 (tag_size t) - tag_size t) 0),
  length-replicate {A = ℕ} (align8 (tag_size t) - tag_size t) 0,
)

tag_at-encode_tag :
    (next : List ℕ → Option (List Tag)) (t : Tag) (more : List ℕ)
    → t.kind ≢ 0
    → tag_at next t.kind (tag_size t) (encode_tag t ++ more) ≡ (next more >>= λ ts. some (t ∷ ts))
unfolding tag_at
tag_at-encode_tag next t more h =
    let padding : List ℕ = replicate (align8 (tag_size t) - tag_size t) 0 in
    let behind : drop (align8 (tag_size t)) (encode_tag t ++ more) ≡ more =
      ap (λ n. drop n (encode_tag t ++ more)) (sym (length-encode_tag t))
      ∙ drop-append (encode_tag t) more in
    let size_is : tag_size t - 8 ≡ length t.payload = omega arith in
    let inside : take (tag_size t - 8) (t.payload ++ padding ++ more) ≡ t.payload =
      rw (size_is, append_assoc t.payload padding more) (take-append t.payload (padding ++ more)) in
    rw (==_ne t.kind 0 h, behind, inside)

parse_tags-encode_tag :
    (fuel : ℕ) (t : Tag) (more : List ℕ)
    → IsBody t
    → parse_tags (suc fuel) (encode_tag t ++ more) ≡ (parse_tags fuel more >>= λ ts. some (t ∷ ts))
unfolding parse_tags
parse_tags-encode_tag fuel t more h =
    let kind_is : from_le (le_bytes 4 t.kind) ≡ t.kind = omega (arith, h.1) in
    let size_is : from_le (le_bytes 4 (tag_size t)) ≡ tag_size t = omega (arith, h.2) in
    ap₂ (λ k n. tag_at (parse_tags fuel) k n (encode_tag t ++ more)) kind_is size_is
    ∙ tag_at-encode_tag (parse_tags fuel) t more h.0

pub parse_tags-encode_tags :
    (fuel : ℕ) (ts : List Tag)
    → length ts < fuel
    → All IsBody ts
    → parse_tags fuel (encode_tags (ts ++ end_tag ∷ [])) ≡ some (ts ++ end_tag ∷ [])
parse_tags-encode_tags zero ts f h = absurd (omega arith)
parse_tags-encode_tags (suc fuel) [] f h = unfold parse_tags tag_at in refl
parse_tags-encode_tags (suc fuel) (t ∷ ts) f h =
    parse_tags-encode_tag fuel t (encode_tags (ts ++ end_tag ∷ [])) h.0
    ∙ ap (λ o. o >>= λ us. some (t ∷ us)) (parse_tags-encode_tags fuel ts (omega arith) h.1)

-- With no terminating tag the walk runs off the end.
pub parse_tags-none :
    (fuel : ℕ) (ts : List Tag) → All IsBody ts → parse_tags fuel (encode_tags ts) ≡ none
parse_tags-none zero ts h = unfold parse_tags in refl
parse_tags-none (suc fuel) [] h = unfold parse_tags tag_at in refl
parse_tags-none (suc fuel) (t ∷ ts) h =
    parse_tags-encode_tag fuel t (encode_tags ts) h.0
    ∙ ap (λ o. o >>= λ us. some (t ∷ us)) (parse_tags-none fuel ts h.1)

-- A tag inside a structure that fits the region states its size exactly.
abbrev pub IsBodyKind : Tag → Type 0
IsBodyKind t = (t.kind ≢ 0) × (t.kind < 2 ^ 32)

pub All-IsBody :
    (ts more : List Tag)
    → All IsBodyKind ts
    → length (encode_tags (ts ++ more)) ≤ info_size
    → All IsBody ts
All-IsBody [] more h room = tt
All-IsBody (t ∷ ts) more h room =
    let size = tag_size-le t (ts ++ more) in
    let behind = length-append (encode_tag t) (encode_tags (ts ++ more)) in
    ((h.0.0, h.0.1, omega (arith, size)), All-IsBody ts more h.1 (omega (arith, behind)))

read_image :
    (n base : ℕ) (bs : List ℕ) (m : Memory)
    → ((i : ℕ) → i < n → m (base + i) ≡ get_or bs i 0)
    → length bs ≤ n
    → read n base m ≡ bs ++ replicate (n - length bs) 0
read_image n base bs m image f =
    get_or_ext 0 (read n base m) (bs ++ replicate (n - length bs) 0)
      (omega (
        arith,
        length-read n base m,
        length-append bs (replicate (n - length bs) 0),
        length-replicate {A = ℕ} (n - length bs) 0,
      ))
      (λ i p.
        let q : i < n = omega (arith, length-read n base m) in
        get_or-read n base m i 0 q ∙ image i q ∙ sym (get_or_zeros bs (n - length bs) i))

parse_info-encode_info :
    (fuel : ℕ) (ts : List Tag) (more : List ℕ)
    → total_size ts < 2 ^ 32
    → parse_info fuel (encode_info ts ++ more) ≡ parse_tags fuel (encode_tags ts)
unfolding parse_info
parse_info-encode_info fuel ts more h =
    let total_is : from_le (le_bytes 4 (total_size ts)) ≡ length (encode_info ts) =
      omega (arith, h) in
    ap (λ n. parse_tags fuel (drop 8 (take n (encode_info ts ++ more)))) total_is
    ∙ ap (λ bs. parse_tags fuel (drop 8 bs)) (take-append (encode_info ts) more)

-- A window that holds the structure is read as its tags.
pub parse_info-read :
    {base : ℕ} {m m' : Memory} (fuel n : ℕ) (ts : List Tag)
    → total_size ts ≤ n
    → n ≤ info_size
    → Holds base (total_size ts) (encode_info ts) m m'
    → parse_info fuel (read n base m') ≡ parse_tags fuel (encode_tags ts)
parse_info-read {base} {m' = m'} fuel n ts lo hi h =
    ap (parse_info fuel)
      (read_image n base (encode_info ts) m' (λ i p. h.image i (omega arith)) (omega arith))
    ∙ parse_info-encode_info fuel ts (replicate (n - length (encode_info ts)) 0) (omega arith)

-- A structure with room for it, as a kernel reads it.
parse_info-Holds :
    {base : ℕ} {m m' : Memory} (fuel n : ℕ) (ts : List Tag)
    → All IsBodyKind ts
    → length ts < fuel
    → total_size (ts ++ end_tag ∷ []) ≤ n
    → n ≤ info_size
    → Holds base (total_size (ts ++ end_tag ∷ [])) (encode_info (ts ++ end_tag ∷ [])) m m'
    → parse_info fuel (read n base m') ≡ some (ts ++ end_tag ∷ [])
parse_info-Holds fuel n ts kinds f lo hi h =
    parse_info-read fuel n (ts ++ end_tag ∷ []) lo hi h
    ∙ parse_tags-encode_tags fuel ts f (All-IsBody ts (end_tag ∷ []) kinds (omega arith))

full_body-kinds :
    (ds : List MemoryDescriptor) (fb : Option FbInfo) (nms : List Named) (rsdp : Option Rsdp)
    → All IsBodyKind (full_body ds fb nms rsdp)
full_body-kinds ds fb nms rsdp = (omega arith, modules nms)
  where
    optionals :
        (g : Option FbInfo) (r : Option Rsdp)
        → All IsBodyKind (optional framebuffer g ++ optional acpi r)
    optionals none none = tt
    optionals none (some r) = ground arith
    optionals (some g) none = ground arith
    optionals (some g) (some r) = ground arith

    modules :
        (ns : List Named)
        → All IsBodyKind (map module_tag ns ++ (optional framebuffer fb ++ optional acpi rsdp))
    modules [] = optionals fb rsdp
    modules (_ ∷ ns) = (omega arith, modules ns)

-- For an ACPI pointer whose copy is as long as it says and modules whose names are NUL-terminated,
-- shorter than 4096 bytes and outside the region: where the memory map, framebuffer, ACPI pointer,
-- modules and terminating tag fit the region together, the builder returns, and a kernel that walks
-- the tags from `INFO_AT`, in any window that holds them, reads back exactly those: the memory map
-- with every entry, each module in order, the framebuffer, the ACPI pointer and the terminator.
pub parse_info-build_mb2_info :
    (base : ℕ) (ds : List MemoryDescriptor) (fb : Option FbInfo) (nms : List Named)
    (rsdp : Option Rsdp) (m : Memory) (fuel n : ℕ)
    → HasBytes rsdp
    → All (HasName base m) nms
    → length (full_body ds fb nms rsdp) < fuel
    → total_size (full_body ds fb nms rsdp ++ end_tag ∷ []) ≤ n
    → n ≤ info_size
    → (m' : Memory) × (build_mb2_info base ds fb (infos nms) rsdp m ≡ some (base % 2 ^ 32, m'))
      × (parse_info fuel (read n base m') ≡ some (full_body ds fb nms rsdp ++ end_tag ∷ []))
parse_info-build_mb2_info base ds fb nms rsdp m fuel n has_bytes has_names f lo hi =
    let (m', e, h) = build_mb2_info-Holds base ds fb nms rsdp m has_bytes has_names in
    let all_sent = sent_tags_all ds fb nms rsdp (omega arith) in
    (
      m',
      e,
      parse_info-Holds fuel n (full_body ds fb nms rsdp) (full_body-kinds ds fb nms rsdp) f lo hi
          (subst (λ ts. Holds base (total_size ts) (encode_info ts) m m') all_sent h),
    )
