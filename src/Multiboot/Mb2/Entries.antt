-- ===== src/Multiboot/Mb2/Entries.antt =====
-- src/multiboot.rs, `build_mb2_info`: the memory map tag, whose size is filled in behind its loop.
use bang.Common.{
  ℕ, zero, suc, ◌+◌, ◌-◌, ◌*◌, ◌≤◌, ◌<◌, ◌≡◌, refl, sym, List, [], ◌∷◌, ◌++◌, append-nil,
  append_assoc, arith, Memory, fill, le_bytes, length, replicate, take, length-append, lt→ltb,
  le→ltb,
}
use bang.Multiboot.{MemoryDescriptor, info_size, write_u32, align8}
use bang.Multiboot.Buffer.{Holds, Holds-congr, Holds-fill, Holds-pad, Holds-write_u32, Holds-patch}
use bang.Multiboot.Mb2.{
  Out, out_at, write_mmap_entry, write_mmap_entries, write_mmap, tag_mmap, mmap_entry_size,
}
use bang.Multiboot.Mb2.Stages.{Building, Building-concat, Holds-write_mmap_entry}
use bang.Multiboot.Mb2.Tags.{entry_bytes, entries_bytes, mmap, mmap_capacity}

pub length-entries_bytes : (ds : List MemoryDescriptor) → length (entries_bytes ds) ≡ 24 * length ds
length-entries_bytes [] = refl
length-entries_bytes (d ∷ ds) =
    omega (arith, length-append (entry_bytes d) (entries_bytes ds), length-entries_bytes ds)

module _ {base : ℕ} {m : Memory} where
  -- With room for `k` entries and no more, the loop writes the first `k`.
  pub Holds-write_mmap_entries :
      (ds : List MemoryDescriptor) (k : ℕ) {bs : List ℕ} (o : Out)
      → o.pos + 24 * k ≤ info_size
      → info_size < o.pos + 24 * k + 24
      → Holds base o.pos bs m o.mem
      → Holds base
          (write_mmap_entries base ds o).pos
          (bs ++ entries_bytes (take k ds))
          m
          (write_mmap_entries base ds o).mem
  unfolding write_mmap_entries
  Holds-write_mmap_entries [] zero o f g h = rw append-nil h
  Holds-write_mmap_entries [] (suc k) o f g h = rw append-nil h
  Holds-write_mmap_entries (d ∷ ds) zero o f g h =
      let over : info_size < o.pos + mmap_entry_size = omega arith in
      rw (lt→ltb info_size (o.pos + mmap_entry_size) over, append-nil) h
  Holds-write_mmap_entries (d ∷ ds) (suc k) {bs} o f g h =
      let room : o.pos + mmap_entry_size ≤ info_size = omega arith in
      rw (le→ltb info_size (o.pos + mmap_entry_size) room) (
        Holds-congr refl (append_assoc bs (entry_bytes d) (entries_bytes (take k ds))) (
          Holds-write_mmap_entries ds k
            (out_at (o.pos + mmap_entry_size) (write_mmap_entry base o.pos d o.mem)) (omega arith)
            (omega arith) (Holds-write_mmap_entry o.pos d room h)))

  -- The size goes into the four bytes that were left for it.
  mmap_close :
      (ds : List MemoryDescriptor) (filled : Out)
      → Holds base filled.pos
          (replicate 8 0
            ++ le_bytes 4 tag_mmap
            ++ (replicate 4 0 ++ (le_bytes 4 24 ++ (le_bytes 4 0 ++ entries_bytes ds))))
          m
          filled.mem
      → Building base
          (mmap ds ∷ [])
          m
          (out_at (align8 filled.pos) (write_u32 base 12 (filled.pos - 8) filled.mem))
  unfolding write_u32
  mmap_close ds filled h =
      let back : 8 + (filled.pos - 8) ≡ filled.pos = omega (arith, h.ends) in
      rw back at (
        Building-concat [] 8 (filled.pos - 8) (mmap ds) refl (omega (arith, h.ends))
          (omega (arith, h.fits))
          (Holds-congr (sym back) refl (
            Holds-patch (replicate 8 0 ++ le_bytes 4 tag_mmap) (replicate 4 0)
              (le_bytes 4 24 ++ (le_bytes 4 0 ++ entries_bytes ds)) 12 (le_bytes 4 (filled.pos - 8))
              h refl refl)))

  pub write_mmap-Building :
      (ds : List MemoryDescriptor)
      → Building base
          (mmap (take mmap_capacity ds) ∷ [])
          m
          (write_mmap base ds (out_at 8 (fill base 0 info_size m)))
  unfolding write_mmap
  write_mmap-Building ds =
      let h1 =
        Holds-write_u32 8 tag_mmap (Holds-fill {base = base} {pos = 8} m (omega arith)) refl
          (omega arith) in
      let h2 = Holds-pad 4 h1 (omega arith) in
      let h3 = Holds-write_u32 16 24 h2 refl (omega arith) in
      let h4 = Holds-write_u32 20 0 h3 refl (omega arith) in
      let start = out_at 24 (
        write_u32 base 20 0
          (write_u32 base 16 24 (write_u32 base 8 tag_mmap (fill base 0 info_size m)))) in
      mmap_close (take mmap_capacity ds) (write_mmap_entries base ds start)
        (Holds-write_mmap_entries ds mmap_capacity start (omega arith) (omega arith) h4)
