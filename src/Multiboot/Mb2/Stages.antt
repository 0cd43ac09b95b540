-- ===== src/Multiboot/Mb2/Stages.antt =====
-- src/multiboot.rs, `build_mb2_info`: each stage of stores appends the bytes of its tag.
use bang.Common.{
  ℕ, ◌+◌, ◌-◌, ◌%◌, ◌≤◌, ◌<◌, ◌≡◌, refl, sym, ap, ◌∙◌, List, [], ◌∷◌, ◌++◌, Option, none, some,
  append-nil, append_assoc, arith, Memory, le_bytes, length, replicate, take, leb, Bool-cases,
  leb→le, leb→lt, inl, inr,
}
use bang.Gop.{FbInfo}
use bang.Multiboot.{MemoryDescriptor, Rsdp, info_size, align8}
use bang.Multiboot.Buffer.{
  Holds, Holds-congr, Holds-pad, Holds-write, Holds-write_u32, Holds-write_u64, Holds-write_u8,
}
use bang.Multiboot.Mb2.{
  Out, out_at, write_mmap_entry, write_fb_fields, write_framebuffer, write_rsdp_fields, write_rsdp,
  write_end, tag_end,
}
use bang.Multiboot.Mb2.Tags.{
  Tag, tag_size, encode_tag, encode_tags, total_size, entry_bytes, framebuffer, add,
  add_framebuffer, acpi, add_acpi, end_tag,
}

-- The buffer holds the tags `ts` behind eight bytes for the header.
pub record Building (base : ℕ) (ts : List Tag) (m : Memory) (o : Out) : Type 0 where
  pub holds : Holds base o.pos (replicate 8 0 ++ encode_tags ts) m o.mem
  pub aligned : o.pos % 8 ≡ 0

-- The copy of the ACPI root pointer is as long as it says.
abbrev pub HasBytes : Option Rsdp → Type 0
HasBytes none = Unit
HasBytes (some r) = length (take r.len r.bytes) ≡ r.len

pub encode_tags-concat :
    (ts : List Tag) (t : Tag) → encode_tags (ts ++ t ∷ []) ≡ encode_tags ts ++ encode_tag t
encode_tags-concat [] t = append-nil (encode_tag t)
encode_tags-concat (u ∷ ts) t =
    ap (◌++◌ (encode_tag u)) (encode_tags-concat ts t)
    ∙ sym (append_assoc (encode_tag u) (encode_tags ts) (encode_tag t))

pub add_fits :
    (reserve : ℕ) (t : Tag) (ts : List Tag)
    → total_size ts + tag_size t + reserve ≤ info_size
    → add reserve t ts ≡ ts ++ t ∷ []
add_fits reserve t ts h = ground arith

pub add_over :
    (reserve : ℕ) (t : Tag) (ts : List Tag)
    → info_size < total_size ts + tag_size t + reserve
    → add reserve t ts ≡ ts
add_over reserve t ts h = ground arith

module _ {base : ℕ} {m : Memory} where
  pub Building-pos : {ts : List Tag} {o : Out} → Building base ts m o → o.pos ≡ total_size ts
  Building-pos {ts} b = omega (arith, b.holds.ends)

  -- What stands behind the tags `ts` is the unpadded tag `t`; the alignment pads it.
  pub Building-concat :
      (ts : List Tag) {m' : Memory} (pos size : ℕ) (t : Tag)
      → pos % 8 ≡ 0
      → size ≡ tag_size t
      → pos + size ≤ info_size
      → Holds base
          (pos + size)
          (replicate 8 0 ++ encode_tags ts ++ (le_bytes 4 t.kind ++ (le_bytes 4 size ++ t.payload)))
          m
          m'
      → Building base (ts ++ t ∷ []) m (out_at (align8 (pos + size)) m')
  Building-concat ts pos size t a e f h = record {
    holds = Holds-congr (omega arith) regroup (Holds-pad (align8 size - size) h (omega arith));
    aligned = omega arith;
  }
    where
      regroup :
          replicate 8 0
            ++ encode_tags ts
            ++ (le_bytes 4 t.kind ++ (le_bytes 4 size ++ t.payload))
            ++ replicate (align8 size - size) 0
          ≡ replicate 8 0 ++ encode_tags (ts ++ t ∷ [])
      regroup = rw (e, encode_tags-concat ts t) (simp append_assoc)

  pub Holds-write_mmap_entry :
      {bs : List ℕ} {m' : Memory} (pos : ℕ) (d : MemoryDescriptor)
      → pos + 24 ≤ info_size
      → Holds base pos bs m m'
      → Holds base (pos + 24) (bs ++ entry_bytes d) m (write_mmap_entry base pos d m')
  unfolding write_mmap_entry
  Holds-write_mmap_entry {bs} pos d f h =
      let h1 = Holds-write_u64 pos _ h refl (omega arith) in
      let h2 = Holds-write_u64 (pos + 8) _ h1 (omega arith) (omega arith) in
      let h3 = Holds-write_u32 (pos + 16) _ h2 (omega arith) (omega arith) in
      let h4 = Holds-write_u32 (pos + 20) _ h3 (omega arith) (omega arith) in
      Holds-congr (omega arith) (simp append_assoc) h4

  pub Holds-write_fb_fields :
      {bs : List ℕ} {m' : Memory} (pos : ℕ) (fb : FbInfo)
      → pos + 37 ≤ info_size
      → Holds base pos bs m m'
      → Holds base
          (pos + 37)
          (bs ++ (le_bytes 4 8 ++ (le_bytes 4 37 ++ (framebuffer fb).payload)))
          m
          (write_fb_fields base pos fb m')
  unfolding write_fb_fields
  Holds-write_fb_fields {bs} pos fb f h =
      let h1 = Holds-write_u32 pos _ h refl (omega arith) in
      let h2 = Holds-write_u32 (pos + 0x04) _ h1 (omega arith) (omega arith) in
      let h3 = Holds-write_u64 (pos + 0x08) _ h2 (omega arith) (omega arith) in
      let h4 = Holds-write_u32 (pos + 0x10) _ h3 (omega arith) (omega arith) in
      let h5 = Holds-write_u32 (pos + 0x14) _ h4 (omega arith) (omega arith) in
      let h6 = Holds-write_u32 (pos + 0x18) _ h5 (omega arith) (omega arith) in
      let h7 = Holds-write_u8 (pos + 0x1c) _ h6 (omega arith) (omega arith) in
      let h8 = Holds-write_u8 (pos + 0x1d) _ h7 (omega arith) (omega arith) in
      let h9 = Holds-write_u8 (pos + 0x1e) _ h8 (omega arith) (omega arith) in
      let h10 = Holds-write_u8 (pos + 0x1f) _ h9 (omega arith) (omega arith) in
      let h11 = Holds-write_u8 (pos + 0x20) _ h10 (omega arith) (omega arith) in
      let h12 = Holds-write_u8 (pos + 0x21) _ h11 (omega arith) (omega arith) in
      let h13 = Holds-write_u8 (pos + 0x22) _ h12 (omega arith) (omega arith) in
      let h14 = Holds-write_u8 (pos + 0x23) _ h13 (omega arith) (omega arith) in
      let h15 = Holds-write_u8 (pos + 0x24) _ h14 (omega arith) (omega arith) in
      Holds-congr (omega arith) (simp append_assoc) h15

  pub write_framebuffer-Building :
      {ts : List Tag} {o : Out} (fb : Option FbInfo)
      → Building base ts m o
      → Building base (add_framebuffer fb ts) m (write_framebuffer base fb o)
  unfolding write_framebuffer
  write_framebuffer-Building none b = b
  write_framebuffer-Building {ts} {o} (some fb) b = elim (Bool-cases (leb (o.pos + 37) info_size)) [
    | inl fits ↦
        let p : o.pos + 37 ≤ info_size = leb→le _ _ fits in
        rw (fits, add_fits 0 (framebuffer fb) ts (omega (arith, b.holds.ends)))
          (Building-concat ts o.pos 37 (framebuffer fb) b.aligned refl p
            (Holds-write_fb_fields o.pos fb p b.holds))
    | inr over ↦
        let p : info_size < o.pos + 37 = leb→lt _ _ over in
        let same : align8 o.pos ≡ o.pos = omega arith in
        rw (over, add_over 0 (framebuffer fb) ts (omega (arith, b.holds.ends)), same) b
  ]

  Holds-write_rsdp_fields :
      {bs : List ℕ} {m' : Memory} (pos : ℕ) (r : Rsdp)
      → length (take r.len r.bytes) ≡ r.len
      → pos + (8 + r.len) ≤ info_size
      → Holds base pos bs m m'
      → Holds base
          (pos + (8 + r.len))
          (bs ++ (le_bytes 4 (acpi r).kind ++ (le_bytes 4 (8 + r.len) ++ (acpi r).payload)))
          m
          (write_rsdp_fields base pos r m')
  unfolding write_rsdp_fields
  Holds-write_rsdp_fields pos r e f h =
      let h1 = Holds-write_u32 pos _ h refl (omega arith) in
      let h2 = Holds-write_u32 (pos + 4) _ h1 (omega arith) (omega arith) in
      let h3 = Holds-write (pos + 8) (take r.len r.bytes) h2 (omega arith) (omega arith) in
      Holds-congr (omega arith) (simp append_assoc) h3

  pub write_rsdp-Building :
      {ts : List Tag} {o : Out} (rsdp : Option Rsdp)
      → HasBytes rsdp
      → Building base ts m o
      → Building base (add_acpi rsdp ts) m (write_rsdp base rsdp o)
  unfolding write_rsdp
  write_rsdp-Building none e b = b
  write_rsdp-Building {ts} {o} (some r) e b =
      elim (Bool-cases (leb (o.pos + (8 + r.len) + 8) info_size)) [
        | inl fits ↦
            let p : o.pos + (8 + r.len) + 8 ≤ info_size = leb→le _ _ fits in
            rw (fits, add_fits 8 (acpi r) ts (omega (arith, b.holds.ends)))
              (Building-concat ts o.pos (8 + r.len) (acpi r) b.aligned (omega arith) (omega arith)
                (Holds-write_rsdp_fields o.pos r e (omega arith) b.holds))
        | inr over ↦
            let p : info_size < o.pos + (8 + r.len) + 8 = leb→lt _ _ over in
            rw (over, add_over 8 (acpi r) ts (omega (arith, b.holds.ends))) b
      ]

  pub write_end-Building :
      {ts : List Tag} {o : Out}
      → Building base ts m o
      → Building base (add 0 end_tag ts) m (write_end base o)
  unfolding write_end
  write_end-Building {ts} {o} b = elim (Bool-cases (leb (o.pos + 8) info_size)) [
    | inl fits ↦
        let p : o.pos + 8 ≤ info_size = leb→le _ _ fits in
        let h1 = Holds-write_u32 o.pos tag_end b.holds refl (omega arith) in
        let h2 = Holds-write_u32 (o.pos + 4) 8 h1 refl (omega arith) in
        let same : align8 (o.pos + 8) ≡ o.pos + 8 = omega (arith, b.aligned) in
        rw (fits, add_fits 0 end_tag ts (omega (arith, b.holds.ends)))
          (rw same at (
            Building-concat ts o.pos 8 end_tag b.aligned refl p
              (Holds-congr (omega arith) (simp append_assoc) h2)))
    | inr over ↦
        let p : info_size < o.pos + 8 = leb→lt _ _ over in
        rw (over, add_over 0 end_tag ts (omega (arith, b.holds.ends))) b
  ]
