-- ===== src/Elf/Segment/Laws.antt =====
-- src/elf.rs: what `load_segment` does to the pages and to memory, on every branch.
use bang.Common.{
  ℕ, suc, ◌+◌, ◌-◌, ◌*◌, ◌/◌, ◌^◌, ◌≤◌, ◌<◌, ◌≡◌, refl, subst, ◌∙◌, ◌⊎◌, inl, inr, Bool, true,
  false, Option, some, List, arith, Memory, write, write_inside, write_before, write_after,
  fill_inside, fill_outside, ltb, ltb→le, le→ltb, if◌then◌else◌, length, take, drop, get_or,
  length-take, length-drop, get_or-take, get_or-drop, get_or_default, Bool-cases,
}
use bang.Elf.Segment.{
  Loader, page_base, claim_pages, place, num_pages, segment_end, is_malformed, load_segment,
}
use bang.Elf.Segment.Claim.{Firmware, IsRecorded, Claimed, claim_pages-Claimed}

-- The segment in memory: the file's bytes, zeros up to `memsz`, and nothing else touched.
pub record IsPlaced (paddr memsz : ℕ) (file_buf : List ℕ) (offset filesz : ℕ)
    (before after : Memory) : Type 0 where
  pub copied : (i : ℕ) → i < filesz → after (paddr + i) ≡ get_or file_buf (offset + i) 0
  pub zeroed : (i : ℕ) → filesz ≤ i → i < memsz → after (paddr + i) ≡ 0
  pub frame : (a : ℕ) → (a < paddr) ⊎ (paddr + memsz ≤ a) → after a ≡ before a

module _ (paddr memsz : ℕ) (file_buf : List ℕ) (offset filesz : ℕ) where
  pub malformed_iff :
      is_malformed paddr memsz file_buf offset filesz ≡ false
      → (filesz ≤ memsz) × (offset + filesz ≤ length file_buf) × (paddr + memsz < 2 ^ 64)
  unfolding is_malformed
  malformed_iff h = ground arith

  well_formed :
      filesz ≤ memsz
      → offset + filesz ≤ length file_buf
      → paddr + memsz < 2 ^ 64
      → offset + filesz < 2 ^ 64
      → is_malformed paddr memsz file_buf offset filesz ≡ false
  unfolding is_malformed
  well_formed a b c d = ground arith

  abbrev file_bytes : List ℕ
  file_bytes = take filesz (drop offset file_buf)

  length-file_bytes : offset + filesz ≤ length file_buf → length file_bytes ≡ filesz
  length-file_bytes inside =
      omega (arith, length-take filesz (drop offset file_buf), length-drop offset file_buf)

  copied_byte :
      (m : Memory) (i : ℕ)
      → offset + filesz ≤ length file_buf
      → i < filesz
      → write paddr file_bytes m (paddr + i) ≡ get_or file_buf (offset + i) 0
  copied_byte m i inside p =
      write_inside paddr file_bytes m i
      ∙ get_or_default file_bytes i (m (paddr + i)) 0 (omega (arith, length-file_bytes inside))
      ∙ get_or-take filesz (drop offset file_buf) i 0 p
      ∙ get_or-drop offset file_buf i 0

  copied_frame :
      (m : Memory) (a : ℕ)
      → offset + filesz ≤ length file_buf
      → (a < paddr) ⊎ (paddr + filesz ≤ a)
      → write paddr file_bytes m a ≡ m a
  copied_frame m a inside (inl p) = write_before paddr file_bytes m a p
  copied_frame m a inside (inr p) =
      write_after paddr file_bytes m a (omega (arith, length-file_bytes inside))

  place-IsPlaced :
      (m : Memory)
      → filesz ≤ memsz
      → offset + filesz ≤ length file_buf
      → IsPlaced paddr memsz file_buf offset filesz m (place paddr memsz file_buf offset filesz m)
  unfolding place
  place-IsPlaced m within inside = elim (Bool-cases (ltb filesz memsz)) [
    | inr same ↦
        let p : memsz ≤ filesz = ltb→le _ _ same in
        rw same (record {
          copied = λ i q. copied_byte m i inside q;
          zeroed = λ i lo hi. absurd (omega arith);
          frame = λ a q. copied_frame m a inside (omega arith);
        })
    | inl more ↦ rw more (record {
      copied = λ i q.
          fill_outside (paddr + filesz) 0 (memsz - filesz) copy (paddr + i) (inl (omega arith))
          ∙ copied_byte m i inside q;
      zeroed = λ i lo hi.
          let there : paddr + filesz + (i - filesz) ≡ paddr + i = omega arith in
          rw there at
            (fill_inside (paddr + filesz) 0 (memsz - filesz) copy (i - filesz) (omega arith));
      frame = λ a q.
          fill_outside (paddr + filesz) 0 (memsz - filesz) copy a (omega arith)
          ∙ copied_frame m a inside (omega arith);
    })
  ]
    where
      copy : Memory
      copy = write paddr file_bytes m

  -- A header that fails a check is refused with nothing claimed and nothing written.
  pub load_segment_malformed :
      {S : Type 0} (allocate : S → ℕ → ℕ → Option S) (l : Loader S)
      → (memsz < filesz) ⊎ ((length file_buf < offset + filesz) ⊎ (2 ^ 64 ≤ paddr + memsz))
      → load_segment allocate paddr memsz file_buf offset filesz l ≡ some (false, l)
  unfolding load_segment is_malformed
  load_segment_malformed allocate l h = ground arith

  -- The outcome of a well-formed segment. On success each byte's page belongs to the loader, and
  -- memory holds the segment and is otherwise as it was; a refusal of the firmware leaves memory
  -- alone.
  pub record IsLoaded (fw : Firmware) (l l' : Loader fw.S) (done : Bool) : Type 0 where
    pub recorded : IsRecorded fw l'
    pub kept : (q : ℕ) → fw.owned l.firmware q ≡ true → fw.owned l'.firmware q ≡ true
    pub pages :
        done ≡ true
        → (a : ℕ) → paddr ≤ a
        → a < paddr + memsz
        → fw.owned l'.firmware (page_base a) ≡ true
    pub placed : done ≡ true → IsPlaced paddr memsz file_buf offset filesz l.mem l'.mem
    pub refused : done ≡ false → l'.mem ≡ l.mem

  -- With a firmware that gives the pages it says it gives, and records of pages that it gave: for a
  -- segment with its bytes in the file that ends at least one page below 2^64, the loop ends. On
  -- success every page that it touches belongs to the loader and memory holds the file's bytes,
  -- then zeros, and is otherwise as before; on a refusal memory is as before. The records stay
  -- true.
  pub load_segment-IsLoaded :
      (fw : Firmware) (l : Loader fw.S)
      → filesz ≤ memsz
      → offset + filesz ≤ length file_buf
      → length file_buf < 2 ^ 64
      → paddr + memsz + 4095 < 2 ^ 64
      → IsRecorded fw l
      → (done : Bool) × (l' : Loader fw.S) × (load_segment fw.allocate paddr memsz file_buf offset
            filesz l
          ≡ some (done, l'))
        × IsLoaded fw l l' done
  unfolding load_segment
  load_segment-IsLoaded fw l within inside fits below h =
      let (done, l', found, c) =
        claim_pages-Claimed fw (suc (num_pages paddr memsz)) (segment_end paddr memsz)
          (page_base paddr) (num_pages paddr memsz) l (omega arith) (omega arith) (omega arith)
          (omega arith) h in
      let fine = well_formed within inside (omega arith) (omega arith) in
      rw (fine, found) (placed_or_refused done l' c)
    where
      placed_or_refused :
          (done : Bool) (l' : Loader fw.S)
          → Claimed fw (page_base paddr) (segment_end paddr memsz) l l' done
          → (r : Bool) × (l'' : Loader fw.S) × (◌≡◌ {A = Option (Bool × Loader fw.S)}
              (some (
                if done
                then (true, record l' { mem = place paddr memsz file_buf offset filesz l'.mem })
                else (false, l')))
              (some (r, l'')))
            × IsLoaded fw l l'' r
      placed_or_refused false l' c = (
        false,
        l',
        refl,
        record {
          recorded = c.recorded;
          kept = c.kept;
          pages = λ d. cc;
          placed = λ d. cc;
          refused = λ _. c.same_mem;
        },
      )
      placed_or_refused true l' c = (
        true,
        record l' { mem = place paddr memsz file_buf offset filesz l'.mem },
        refl,
        record {
          recorded = c.recorded;
          kept = c.kept;
          pages = λ d a lo hi.
              let i : ℕ = (page_base a - page_base paddr) / 4096 in
              let there : page_base paddr + i * 4096 ≡ page_base a = omega arith in
              rw there at (c.all_owned refl i (omega arith));
          placed = λ d.
              subst
                (λ m.
                  IsPlaced paddr memsz file_buf offset filesz m
                    (place paddr memsz file_buf offset filesz l'.mem))
                c.same_mem (place-IsPlaced l'.mem within inside);
          refused = λ d. cc;
        },
      )

  -- A segment that ends in the last page below 2^64 passes every check, the page count or the end
  -- of the loop wraps to nothing, and the segment is written to memory that was never claimed: the
  -- loader reports success with its records and the firmware's state unchanged.
  pub load_segment_unclaimed :
      {S : Type 0} (allocate : S → ℕ → ℕ → Option S) (l : Loader S)
      → filesz ≤ memsz
      → offset + filesz ≤ length file_buf
      → length file_buf < 2 ^ 64
      → paddr + memsz < 2 ^ 64
      → 2 ^ 64 ≤ paddr + memsz + 4095
      → load_segment allocate paddr memsz file_buf offset filesz l
        ≡ some (true, record l { mem = place paddr memsz file_buf offset filesz l.mem })
  unfolding load_segment claim_pages
  load_segment_unclaimed allocate l within inside fits below over =
      let fine = well_formed within inside below (omega arith) in
      let no_page : segment_end paddr memsz ≤ page_base paddr = omega arith in
      rw (fine, le→ltb (page_base paddr) (segment_end paddr memsz) no_page)
