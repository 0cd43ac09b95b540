-- ===== src/Elf/Kernel/Image.antt =====
-- src/elf.rs: memory after all the segments of a kernel.
use bang.Common.{
  ℕ, zero, suc, ◌+◌, ◌-◌, ◌*◌, ◌^◌, ◌≤◌, ◌<◌, ◌≡◌, refl, sym, ap, subst, ◌∙◌, inl, inr, Bool, true,
  false, not, ◌&&◌, ◌||◌, Option, none, some, List, [], ◌∷◌, arith, All, ltb, leb, ◌==◌,
  if◌then◌else◌, length, get_or, Bool-cases,
}
use bang.Elf.{KernelInfo, word}
use bang.Elf.Detect.Laws.{detect_multiboot_version-HasVersion}
use bang.Elf.Kernel.{
  ok, Phdr, Layout, elf32, elf64, past_end, is_elf, segment_result, load_segments, load_class,
  load_kernel,
}
use bang.Elf.Kernel.Laws.{assert-eq-ok, bind-eq-ok, by_class}
use bang.Elf.Segment.{Loader, page_base, is_malformed, load_segment}
use bang.Elf.Segment.Claim.{Firmware, IsRecorded}
use bang.Elf.Segment.Laws.{IsPlaced, IsLoaded, load_segment-IsLoaded, malformed_iff}

-- The loadable headers, up to one that is not in the file.
unfoldable pub segments : Layout → List ℕ → ℕ → ℕ → List Phdr
segments h buf zero i = []
segments h buf (suc left) i =
    let off = h.phoff buf + i * h.phdr_size in
    let ph = h.phdr buf off in
    let rest = segments h buf left (i + 1) in
    if leb (2 ^ 64) off || past_end buf off h.phdr_size
    then []
    else if not (ph.p_type == 1)
    then rest
    else ph ∷ rest

-- What a segment has at an address: a byte of the file or a zero behind them, if it reaches there.
abbrev pub byte_of : List ℕ → Phdr → ℕ → Option ℕ
byte_of buf p a =
    if leb p.p_paddr a && ltb a (p.p_paddr + p.p_memsz)
    then some
        (if ltb (a - p.p_paddr) p.p_filesz then get_or buf (p.p_offset + (a - p.p_paddr)) 0 else 0)
    else none

abbrev pub first_some : Option ℕ → Option ℕ → Option ℕ
first_some none o = o
first_some (some b) o = some b

-- The byte of the last segment that reaches an address.
abbrev pub image_byte : List ℕ → List Phdr → ℕ → Option ℕ
image_byte buf [] a = none
image_byte buf (p ∷ ps) a = first_some (image_byte buf ps a) (byte_of buf p a)

abbrev pub or_else : Option ℕ → ℕ → ℕ
or_else none b = b
or_else (some c) b = c

or_else_first : (o q : Option ℕ) (b : ℕ) → or_else (first_some o q) b ≡ or_else o (or_else q b)
or_else_first none q b = refl
or_else_first (some c) q b = refl

-- The segment ends at least a page below 2^64, as any of a 32-bit file does.
abbrev pub HasRoom : Phdr → Type 0
HasRoom p = p.p_paddr + p.p_memsz + 4095 < 2 ^ 64

-- The layout of a file's headers, by its class, and the loadable ones.
abbrev pub layout_of : List ℕ → Layout
layout_of buf = if word 1 buf 4 == 1 then elf32 else elf64

abbrev pub kernel_segments : List ℕ → List Phdr
kernel_segments buf = segments (layout_of buf) buf ((layout_of buf).phnum buf) 0

module _ (fw : Firmware) (buf : List ℕ) where
  abbrev pub Owns : Loader fw.S → Phdr → Type 0
  Owns l p =
      (a : ℕ) → p.p_paddr ≤ a → a < p.p_paddr + p.p_memsz → fw.owned l.firmware (page_base a) ≡ true

  -- From `l` to `l'` the segments were loaded: each of their pages is the loader's, and memory has
  -- at each address the byte of the last segment that reaches it, or what it had.
  pub record IsImage (ps : List Phdr) (l l' : Loader fw.S) : Type 0 where
    pub recorded : IsRecorded fw l'
    pub kept : (q : ℕ) → fw.owned l.firmware q ≡ true → fw.owned l'.firmware q ≡ true
    pub pages : All (Owns l') ps
    pub bytes : (a : ℕ) → l'.mem a ≡ or_else (image_byte buf ps a) (l.mem a)

  placed-byte_of :
      (p : Phdr) (l l' : Loader fw.S) (a : ℕ)
      → IsPlaced p.p_paddr p.p_memsz buf p.p_offset p.p_filesz l.mem l'.mem
      → l'.mem a ≡ or_else (byte_of buf p a) (l.mem a)
  placed-byte_of p l l' a h = elim (Bool-cases (leb p.p_paddr a && ltb a (p.p_paddr + p.p_memsz))) [
    | inr outside ↦ rw outside (h.frame a (ground (arith, outside)))
    | inl inside ↦
        let low : p.p_paddr ≤ a = ground (arith, inside) in
        let high : a < p.p_paddr + p.p_memsz = ground (arith, inside) in
        let there : p.p_paddr + (a - p.p_paddr) ≡ a = omega arith in
        elim (Bool-cases (ltb (a - p.p_paddr) p.p_filesz)) [
          | inl file ↦
              rw (inside, file)
                (ap l'.mem (sym there) ∙ h.copied (a - p.p_paddr) (ground (arith, file)))
          | inr zeros ↦
              rw (inside, zeros)
                (ap l'.mem (sym there)
                  ∙ h.zeroed (a - p.p_paddr) (ground (arith, zeros)) (omega arith))
        ]
  ]

  nothing-IsImage : (l : Loader fw.S) → IsRecorded fw l → IsImage [] l l
  nothing-IsImage l r = record { recorded = r; kept = λ q o. o; pages = tt; bytes = λ a. refl }

  Owns-kept :
      (l l' : Loader fw.S) (p : Phdr)
      → ((q : ℕ) → fw.owned l.firmware q ≡ true → fw.owned l'.firmware q ≡ true)
      → Owns l p
      → Owns l' p
  Owns-kept l l' p kept o = λ a lo hi. kept (page_base a) (o a lo hi)

  one_more-IsImage :
      (p : Phdr) (ps : List Phdr) (l l1 l' : Loader fw.S)
      → IsLoaded p.p_paddr p.p_memsz buf p.p_offset p.p_filesz fw l l1 true
      → IsImage ps l1 l'
      → IsImage (p ∷ ps) l l'
  one_more-IsImage p ps l l1 l' h more = record {
    recorded = more.recorded;
    kept = λ q o. more.kept q (h.kept q o);
    pages = (Owns-kept l1 l' p more.kept (h.pages refl), more.pages);
    bytes = λ a.
        more.bytes a
        ∙ ap (or_else (image_byte buf ps a)) (placed-byte_of p l l1 a (h.placed refl))
        ∙ sym (or_else_first (image_byte buf ps a) (byte_of buf p a) (l.mem a));
  }

  -- A segment that does not end the loader was loaded.
  segment_result-IsLoaded :
      (p : Phdr) (l l1 : Loader fw.S)
      → length buf < 2 ^ 64
      → HasRoom p
      → IsRecorded fw l
      → segment_result fw.allocate
          (load_segment fw.allocate p.p_paddr p.p_memsz buf p.p_offset p.p_filesz l)
        ≡ ok l1
      → IsLoaded p.p_paddr p.p_memsz buf p.p_offset p.p_filesz fw l l1 true
  unfolding load_segment
  segment_result-IsLoaded p l l1 fits room r e =
      elim (Bool-cases (is_malformed p.p_paddr p.p_memsz buf p.p_offset p.p_filesz)) [
        | inl malformed ↦ cc (rw malformed at e)
        | inr fine ↦
            let (within, inside, below) =
              malformed_iff p.p_paddr p.p_memsz buf p.p_offset p.p_filesz fine in
            let (done, l2, found, h) =
              load_segment-IsLoaded p.p_paddr p.p_memsz buf p.p_offset p.p_filesz fw l within inside
                fits room r in
            by_result done l2 h (ap (segment_result fw.allocate) (sym found) ∙ e)
      ]
    where
      by_result :
          (done : Bool) (l2 : Loader fw.S)
          → IsLoaded p.p_paddr p.p_memsz buf p.p_offset p.p_filesz fw l l2 done
          → segment_result fw.allocate (some (done, l2)) ≡ ok l1
          → IsLoaded p.p_paddr p.p_memsz buf p.p_offset p.p_filesz fw l l1 true
      by_result false l2 h q = cc
      by_result true l2 h q =
          let same : l2 ≡ l1 = cc in
          subst (λ k. IsLoaded p.p_paddr p.p_memsz buf p.p_offset p.p_filesz fw l k true) same h

  load_segments-IsImage :
      (h : Layout) (left i : ℕ) (l l' : Loader fw.S)
      → length buf < 2 ^ 64
      → All HasRoom (segments h buf left i)
      → IsRecorded fw l
      → load_segments fw.allocate h buf left i l ≡ ok l'
      → IsImage (segments h buf left i) l l'
  unfolding load_segments segments
  load_segments-IsImage h zero i l l' fits room r e =
      let same : l ≡ l' = cc in subst (IsImage [] l) same (nothing-IsImage l r)
  load_segments-IsImage h (suc left) i l l' fits room r e =
      let off = h.phoff buf + i * h.phdr_size in
      let ph = h.phdr buf off in
      elim (Bool-cases (leb (2 ^ 64) off || past_end buf off h.phdr_size)) [
        | inl past ↦
            let same : l ≡ l' = cc (rw past at e) in
            rw past (subst (IsImage [] l) same (nothing-IsImage l r))
        | inr within ↦ elim (Bool-cases (not (ph.p_type == 1))) [
          | inl other ↦
              rw (within, other)
                (load_segments-IsImage h left (i + 1) l l' fits (rw (within, other) at room) r
                  (rw (within, other) at e))
          | inr loadable ↦
              let (l1, done, rest) =
                bind-eq-ok
                  (segment_result fw.allocate
                    (load_segment fw.allocate ph.p_paddr ph.p_memsz buf ph.p_offset ph.p_filesz l))
                  _ (rw (within, loadable) at e) in
              let rooms : All HasRoom (ph ∷ segments h buf left (i + 1)) =
                rw (within, loadable) at room in
              let first = segment_result-IsLoaded ph l l1 fits rooms.0 r done in
              rw (within, loadable)
                (one_more-IsImage ph (segments h buf left (i + 1)) l l1 l' first
                  (load_segments-IsImage h left (i + 1) l1 l' fits rooms.1 first.recorded rest))
        ]
      ]

  load_class-IsImage :
      (h : Layout) (l l' : Loader fw.S) (entry : ℕ)
      → length buf < 2 ^ 64
      → All HasRoom (segments h buf (h.phnum buf) 0)
      → IsRecorded fw l
      → load_class fw.allocate h buf l ≡ ok (entry, l')
      → IsImage (segments h buf (h.phnum buf) 0) l l'
  unfolding load_class
  load_class-IsImage h l l' entry fits room r e =
      let (sized, e1) = assert-eq-ok (leb h.ehdr_size (length buf)) h.truncated _ e in
      let (kind, e2) =
        assert-eq-ok (word 2 buf 16 == 2 && word 2 buf 18 == h.machine) h.wrong_machine _ e1 in
      let (last, e3, e4) = bind-eq-ok (load_segments fw.allocate h buf (h.phnum buf) 0 l) _ e2 in
      let same : last ≡ l' = cc in
      subst (IsImage (segments h buf (h.phnum buf) 0) l) same
        (load_segments-IsImage h (h.phnum buf) 0 l last fits room r e3)

  by_class-IsImage :
      (l l' : Loader fw.S) (entry : ℕ)
      → length buf < 2 ^ 64
      → All HasRoom (kernel_segments buf)
      → IsRecorded fw l
      → by_class fw.allocate buf l ≡ ok (entry, l')
      → IsImage (kernel_segments buf) l l'
  by_class-IsImage l l' entry fits room r e = elim (Bool-cases (word 1 buf 4 == 1)) [
    | inl one ↦ rw one (load_class-IsImage elf32 l l' entry fits (rw one at room) r (rw one at e))
    | inr not_one ↦ elim (Bool-cases (word 1 buf 4 == 2)) [
      | inl two ↦
          rw not_one (
            load_class-IsImage elf64 l l' entry fits (rw not_one at room) r
              (rw (not_one, two) at e))
      | inr not_two ↦ cc (rw (not_one, not_two) at e)
    ]
  ]

  -- A kernel that is loaded, with a firmware that gives the pages it says it gives, whose segments
  -- all end at least a page below 2^64: the pages of each segment are the loader's, and at each
  -- address memory has the byte of the last segment that reaches it, from the file or zero, or what
  -- it had.
  pub load_kernel-IsImage :
      (l l' : Loader fw.S) (k : KernelInfo)
      → length buf < 2 ^ 64
      → All HasRoom (kernel_segments buf)
      → IsRecorded fw l
      → load_kernel fw.allocate buf l ≡ ok (k, l')
      → IsImage (kernel_segments buf) l l'
  unfolding load_kernel
  load_kernel-IsImage l l' k fits room r e =
      let (version, detected, v) = detect_multiboot_version-HasVersion buf in
      let (elf, e1) = assert-eq-ok (is_elf buf) _ _ e in
      let ((entry, last), e2, e3) = bind-eq-ok (by_class fw.allocate buf l) _ (rw detected at e1) in
      let same : last ≡ l' = cc in
      subst (IsImage (kernel_segments buf) l) same (by_class-IsImage l last entry fits room r e2)
