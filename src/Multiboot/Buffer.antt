-- ===== src/Multiboot/Buffer.antt =====
-- src/multiboot.rs: the memory that `reserve` sets aside, read as the bytes written so far with
-- zeros behind them, and the memory around it.
use bang.Common.{
  ℕ, ◌+◌, ◌-◌, ◌≤◌, ◌<◌, ◌≡◌, refl, sym, ap, ◌∙◌, ◌⊎◌, inl, inr, zero, suc, Bool-cases, ltb→lt,
  ltb→le, List, [], ◌∷◌, ◌++◌, arith, Memory, write, fill, le_bytes, length, get_or, replicate,
  length-append, length-replicate, get_or_past, get_or_default, get_or-append_left,
  get_or-append_right, get_or-replicate, write_before, write_after, write_inside, fill_inside,
  fill_outside, ltb,
}
use bang.Multiboot.{info_size, write_u32, write_u64, write_u8}

-- From `before`, the region at `base` was given the bytes `bs`, which end at `pos`, and zeros, and
-- nothing else changed.
pub record Holds (base pos : ℕ) (bs : List ℕ) (before after : Memory) : Type 0 where
  pub image : (i : ℕ) → i < info_size → after (base + i) ≡ get_or bs i 0
  pub frame : (a : ℕ) → (a < base) ⊎ (base + info_size ≤ a) → after a ≡ before a
  pub ends : length bs ≡ pos
  pub fits : pos ≤ info_size

pub get_or_zeros : (bs : List ℕ) (k i : ℕ) → get_or (bs ++ replicate k 0) i 0 ≡ get_or bs i 0
get_or_zeros [] k i = get_or-replicate k i 0
get_or_zeros (b ∷ bs) k zero = refl
get_or_zeros (b ∷ bs) k (suc i) = get_or_zeros bs k i

write_image :
    (base : ℕ) (bs xs : List ℕ) (m : Memory) (i : ℕ)
    → m (base + i) ≡ get_or bs i 0
    → write (base + length bs) xs m (base + i) ≡ get_or (bs ++ xs) i 0
write_image base bs xs m i h = elim (Bool-cases (ltb i (length bs))) [
  | inl below ↦
      let p : i < length bs = ltb→lt _ _ below in
      write_before (base + length bs) xs m (base + i) (omega arith)
      ∙ h
      ∙ sym (get_or-append_left bs xs i 0 p)
  | inr above ↦
      let p : length bs ≤ i = ltb→le _ _ above in
      let there : base + i ≡ base + length bs + (i - length bs) = omega arith in
      ap (write (base + length bs) xs m) there
      ∙ write_inside (base + length bs) xs m (i - length bs)
      ∙ ap (get_or xs (i - length bs)) (ap m (sym there) ∙ h ∙ get_or_past bs i 0 p)
      ∙ sym (get_or-append_right bs xs i 0 p)
]

patch_image :
    (base : ℕ) (pre old post xs : List ℕ) (m : Memory) (i : ℕ)
    → length xs ≡ length old
    → m (base + i) ≡ get_or (pre ++ (old ++ post)) i 0
    → write (base + length pre) xs m (base + i) ≡ get_or (pre ++ (xs ++ post)) i 0
patch_image base pre old post xs m i same h = elim (Bool-cases (ltb i (length pre))) [
  | inl below ↦
      let p : i < length pre = ltb→lt _ _ below in
      write_before (base + length pre) xs m (base + i) (omega arith)
      ∙ h
      ∙ get_or-append_left pre (old ++ post) i 0 p
      ∙ sym (get_or-append_left pre (xs ++ post) i 0 p)
  | inr above ↦
      let p : length pre ≤ i = ltb→le _ _ above in
      let there : base + i ≡ base + length pre + (i - length pre) = omega arith in
      ap (write (base + length pre) xs m) there
      ∙ write_inside (base + length pre) xs m (i - length pre)
      ∙ over (i - length pre) (ap m (sym there) ∙ h ∙ get_or-append_right pre (old ++ post) i 0 p)
      ∙ sym (get_or-append_right pre (xs ++ post) i 0 p)
]
  where
    over : (j : ℕ) {d : ℕ} → d ≡ get_or (old ++ post) j 0 → get_or xs j d ≡ get_or (xs ++ post) j 0
    over j {d} e = elim (Bool-cases (ltb j (length xs))) [
      | inl inside ↦
          get_or_default xs j d 0 (ltb→lt _ _ inside)
          ∙ sym (get_or-append_left xs post j 0 (ltb→lt _ _ inside))
      | inr behind ↦
          let q : length xs ≤ j = ltb→le _ _ behind in
          get_or_past xs j d q
          ∙ e
          ∙ get_or-append_right old post j 0 (omega arith)
          ∙ ap (λ k. get_or post (j - k) 0) (sym same)
          ∙ sym (get_or-append_right xs post j 0 q)
    ]

kept_frame :
    (base off : ℕ) (xs : List ℕ) (m : Memory)
    → off + length xs ≤ info_size
    → (a : ℕ) → (a < base) ⊎ (base + info_size ≤ a)
    → write (base + off) xs m a ≡ m a
kept_frame base off xs m f a (inl p) = write_before (base + off) xs m a (omega arith)
kept_frame base off xs m f a (inr p) = write_after (base + off) xs m a (omega arith)

pub Holds-congr :
    {base pos pos' : ℕ} {bs bs' : List ℕ} {m m' : Memory}
    → pos ≡ pos'
    → bs ≡ bs'
    → Holds base pos bs m m'
    → Holds base pos' bs' m m'
Holds-congr e f h = rw (← e, ← f) h

module _ {base pos : ℕ} where
  pub Holds-fill :
      (m : Memory) → pos ≤ info_size → Holds base pos (replicate pos 0) m (fill base 0 info_size m)
  Holds-fill m h = record {
    image = λ i p. fill_inside base 0 info_size m i p ∙ sym (get_or-replicate pos i 0);
    frame = λ a p. fill_outside base 0 info_size m a p;
    ends = length-replicate pos 0;
    fits = h;
  }

  -- Zeros are appended without a store.
  pub Holds-pad :
      {bs : List ℕ} {m m' : Memory} (k : ℕ)
      → Holds base pos bs m m'
      → pos + k ≤ info_size
      → Holds base (pos + k) (bs ++ replicate k 0) m m'
  Holds-pad {bs} k h f = record {
    image = λ i p. h.image i p ∙ sym (get_or_zeros bs k i);
    frame = h.frame;
    ends = omega (arith, length-append bs (replicate k 0), length-replicate {A = ℕ} k 0, h.ends);
    fits = f;
  }

  -- A store right behind what was written.
  pub Holds-write :
      {bs : List ℕ} {m m' : Memory} (off : ℕ) (xs : List ℕ)
      → Holds base pos bs m m'
      → off ≡ pos
      → pos + length xs ≤ info_size
      → Holds base (pos + length xs) (bs ++ xs) m (write (base + off) xs m')
  Holds-write {bs} {m} {m'} off xs h e f = record {
    image = λ i p. rw (e ∙ sym h.ends) (write_image base bs xs m' i (h.image i p));
    frame = λ a p. kept_frame base off xs m' (omega arith) a p ∙ h.frame a p;
    ends = omega (arith, length-append bs xs, h.ends);
    fits = f;
  }

  pub Holds-write_u32 :
      {bs : List ℕ} {m m' : Memory} (off v : ℕ)
      → Holds base pos bs m m'
      → off ≡ pos
      → pos + 4 ≤ info_size
      → Holds base (pos + 4) (bs ++ le_bytes 4 v) m (write_u32 base off v m')
  unfolding write_u32
  Holds-write_u32 off v h e f = Holds-write off (le_bytes 4 v) h e f

  pub Holds-write_u64 :
      {bs : List ℕ} {m m' : Memory} (off v : ℕ)
      → Holds base pos bs m m'
      → off ≡ pos
      → pos + 8 ≤ info_size
      → Holds base (pos + 8) (bs ++ le_bytes 8 v) m (write_u64 base off v m')
  unfolding write_u64
  Holds-write_u64 off v h e f = Holds-write off (le_bytes 8 v) h e f

  pub Holds-write_u8 :
      {bs : List ℕ} {m m' : Memory} (off v : ℕ)
      → Holds base pos bs m m'
      → off ≡ pos
      → pos + 1 ≤ info_size
      → Holds base (pos + 1) (bs ++ le_bytes 1 v) m (write_u8 base off v m')
  unfolding write_u8
  Holds-write_u8 off v h e f = Holds-write off (le_bytes 1 v) h e f

  -- A store over bytes that were written earlier.
  pub Holds-patch :
      (pre old post : List ℕ) {m m' : Memory} (off : ℕ) (xs : List ℕ)
      → Holds base pos (pre ++ (old ++ post)) m m'
      → off ≡ length pre
      → length xs ≡ length old
      → Holds base pos (pre ++ (xs ++ post)) m (write (base + off) xs m')
  Holds-patch pre old post {m} {m'} off xs h e same = record {
    image = λ i p. rw e (patch_image base pre old post xs m' i same (h.image i p));
    frame = λ a p. kept_frame base off xs m' within a p ∙ h.frame a p;
    ends = omega (
      arith,
      h.ends,
      length-append pre (old ++ post),
      length-append old post,
      length-append pre (xs ++ post),
      length-append xs post,
    );
    fits = h.fits;
  }
    where
      within : off + length xs ≤ info_size
      within =
          omega (arith, h.fits, h.ends, length-append pre (old ++ post), length-append old post)
