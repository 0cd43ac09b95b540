-- ===== src/Multiboot/Mb1/Entries.antt =====
-- src/multiboot.rs, `build_mb1_info`: the entries of the memory map.
use bang.Common.{
  ℕ, zero, suc, ◌+◌, ◌*◌, ◌≤◌, ◌<◌, ◌≡◌, refl, ap, ap₂, ◌∙◌, ◌⊎◌, inl, true, false, List, [], ◌∷◌,
  ◌++◌, arith, write, read, length, take, leb, read_append, read-write, read_congr, write_away,
}
use bang.Multiboot.{MemoryDescriptor}
use bang.Multiboot.Mb1.{
  mb1_mmap_at, mb1_mmap_max, mb1_entry_size, Map1, mb1_entry_bytes, count_memory, write_map1,
}

abbrev pub mb1_entries_bytes : List MemoryDescriptor → List ℕ
mb1_entries_bytes [] = []
mb1_entries_bytes (d ∷ ds) = mb1_entry_bytes d ++ mb1_entries_bytes ds

abbrev pub entry_at : ℕ → ℕ → ℕ
entry_at base i = base + mb1_mmap_at + i * mb1_entry_size

-- From `s`, the loop has written the entries `ds`, and no other byte.
pub record IsMapped (base : ℕ) (ds : List MemoryDescriptor) (s r : Map1) : Type 0 where
  pub count : r.count ≡ s.count + length ds
  pub bytes : read (length ds * 24) (entry_at base s.count) r.mem ≡ mb1_entries_bytes ds
  pub frame :
      (a : ℕ) → (a < entry_at base s.count) ⊎ (entry_at base mb1_mmap_max ≤ a) → r.mem a ≡ s.mem a

count_memory-mem : (d : MemoryDescriptor) (s : Map1) → (count_memory d s).mem ≡ s.mem
unfolding count_memory
count_memory-mem d s = ground arith

count_memory-count : (d : MemoryDescriptor) (s : Map1) → (count_memory d s).count ≡ s.count
unfolding count_memory
count_memory-count d s = ground arith

IsMapped-nil : (base : ℕ) (s : Map1) → IsMapped base [] s s
IsMapped-nil base s = record { count = omega arith; bytes = refl; frame = λ a p. refl }

abbrev written_entry : ℕ → MemoryDescriptor → Map1 → Map1
written_entry base d s = record s {
  count = s.count + 1;
  mem = write (base + mb1_mmap_at + s.count * mb1_entry_size) (mb1_entry_bytes d) s.mem;
}

IsMapped-cons :
    (base : ℕ) (d : MemoryDescriptor) (ds : List MemoryDescriptor) (s t r : Map1)
    → t.count ≡ s.count + 1
    → t.mem ≡ write (entry_at base s.count) (mb1_entry_bytes d) s.mem
    → s.count < mb1_mmap_max
    → IsMapped base ds t r
    → IsMapped base (d ∷ ds) s r
IsMapped-cons base d ds s t r counted stored room w = record {
  count = omega (arith, w.count, counted);
  bytes =
      let here = entry_at base s.count in
      let split : suc (length ds) * 24 ≡ 24 + length ds * 24 = omega arith in
      let next : here + 24 ≡ entry_at base t.count = omega (arith, counted) in
      let head : read 24 here r.mem ≡ mb1_entry_bytes d =
        read_congr 24 here r.mem t.mem (λ a lo hi. w.frame a (inl (omega (arith, counted))))
        ∙ ap (read 24 here) stored
        ∙ read-write here (mb1_entry_bytes d) s.mem in
      ap (λ n. read n here r.mem) split
      ∙ read_append 24 (length ds * 24) here r.mem
      ∙ ap₂ ◌++◌ head (ap (λ a. read (length ds * 24) a r.mem) next ∙ w.bytes);
  frame = λ a p.
      w.frame a (omega (arith, counted, p))
      ∙ ap (λ m. m a) stored
      ∙ write_away (entry_at base s.count) (mb1_entry_bytes d) s.mem a (omega (arith, p));
}

pub write_map1-IsMapped :
    (base : ℕ) (ds : List MemoryDescriptor) (s : Map1) (room : ℕ)
    → s.count + room ≡ mb1_mmap_max
    → IsMapped base (take room ds) s (write_map1 base ds s)
unfolding write_map1
write_map1-IsMapped base [] s zero h = IsMapped-nil base s
write_map1-IsMapped base [] s (suc room) h = IsMapped-nil base s
write_map1-IsMapped base (d ∷ ds) s zero h =
    let full : leb mb1_mmap_max s.count ≡ true = ground arith in rw full (IsMapped-nil base s)
write_map1-IsMapped base (d ∷ ds) s (suc room) h =
    let free : leb mb1_mmap_max s.count ≡ false = ground arith in
    let written = written_entry base d s in
    let counted = count_memory-count d written in
    rw free (
      IsMapped-cons base d (take room ds) s _ _ counted (count_memory-mem d written) (omega arith)
        (write_map1-IsMapped base ds (count_memory d written) room (omega (arith, counted))))
