-- ===== src/Linux/Image.antt =====
-- src/linux.rs: what the checks establish, and that the kernel fits the pages it is given.
use bang.Common.{
  ℕ, ◌+◌, ◌*◌, ◌/◌, ◌%◌, ◌≤◌, ◌<◌, ◌≡◌, ◌≢◌, refl, ap, ◌∙◌, inl, inr, max, Bool, true, false, not,
  ◌||◌, Option, some, List, arith, subst, leb→lt, ltb, leb, ltb→le, ◌==◌, if◌then◌else◌, length,
  Option-cases,
}
use bang.Elf.{word}
use bang.Linux.{
  Status, load_error, unsupported, Outcome, ok, fail, Setup, setup_sects, check, need,
  next_multiple_of, div_ceil, alloc_low, place_kernel,
}

-- A bzImage whose setup header can be believed.
pub record IsBzImage (image : List ℕ) (s : Setup) : Type 0 where
  pub large : 0x1000 ≤ length image
  pub boot_flag : word 2 image 0x1fe ≡ 0xaa55
  pub header_magic : word 4 image 0x202 ≡ 0x5372_6448
  pub version : 0x20b ≤ word 2 image 0x206
  pub has_handover : word 2 image 0x236 / 8 % 2 ≡ 1
  pub has_kernel : s.kernel_offset < length image
  pub sectors :
      (word 1 image 0x1f1 ≡ 0 → s.kernel_offset ≡ 5 * 512)
      × (word 1 image 0x1f1 ≢ 0 → s.kernel_offset ≡ (word 1 image 0x1f1 + 1) * 512)
  pub entry : s.handover_offset ≡ word 4 image 0x264

passed :
    {A : Type 0} (b : Bool) (status : Status) (k : Outcome A) {a : A}
    → (if b then fail status else k) ≡ ok a
    → (b ≡ false) × (k ≡ ok a)
passed true status k e = cc
passed false status k e = (refl, e)

pub ok-inj : {A : Type 0} {a b : A} → ok a ≡ ok b → a ≡ b
ok-inj e = cc

magic_numbers :
    (flag magic : ℕ)
    → (not (flag == 0xaa55) || not (magic == 0x5372_6448)) ≡ false
    → (flag ≡ 0xaa55) × (magic ≡ 0x5372_6448)
magic_numbers flag magic h = ground arith

odd : (n : ℕ) → (n % 2 == 0) ≡ false → n % 2 ≡ 1
odd n h = ground arith

sectors_of :
    (n : ℕ)
    → (n ≡ 0 → ((if n == 0 then 4 else n) + 1) * 512 ≡ 5 * 512)
      × (n ≢ 0 → ((if n == 0 then 4 else n) + 1) * 512 ≡ (n + 1) * 512)
sectors_of n = ground arith

-- The checks let through only an image of at least 4096 bytes with the boot flag, the header's
-- magic number, a protocol of at least 2.11, a 64-bit handover entry, and a byte of kernel behind
-- its setup sectors, of which there are four if the header says none.
pub check-IsBzImage : (image : List ℕ) (s : Setup) → check image ≡ ok s → IsBzImage image s
unfolding check
check-IsBzImage image s e =
    let (large, e1) = passed (ltb (length image) 0x1000) load_error _ e in
    let (magic, e2) =
      passed (not (word 2 image 0x1fe == 0xaa55) || not (word 4 image 0x202 == 0x5372_6448))
        load_error _ e1 in
    let (recent, e3) = passed (ltb (word 2 image 0x206) 0x20b) unsupported _ e2 in
    let (handover, e4) = passed (word 2 image 0x236 / 8 % 2 == 0) unsupported _ e3 in
    let (kernel, e5) =
      passed (leb (length image) ((setup_sects image + 1) * 512)) load_error _ e4 in
    let (flag, header) = magic_numbers (word 2 image 0x1fe) (word 4 image 0x202) magic in
    subst (IsBzImage image) (ok-inj e5) record {
      large = ltb→le _ _ large;
      boot_flag = flag;
      header_magic = header;
      version = ltb→le _ _ recent;
      has_handover = odd (word 2 image 0x236 / 8) handover;
      has_kernel = leb→lt _ _ kernel;
      sectors = sectors_of (word 1 image 0x1f1);
      entry = refl;
    }

aligned-fits :
    (p alignment n : ℕ)
    → (p ≤ (if ltb 1 alignment then next_multiple_of p alignment else p))
      × ((if ltb 1 alignment then next_multiple_of p alignment else p) + n ≤ p + (n + alignment))
aligned-fits p alignment n = ground arith

-- The kernel of a relocatable image, wherever its alignment puts it, lies inside the pages that
-- were allocated for it.
pub place_kernel-fits :
    {S : Type 0} (allocate : S → ℕ → ℕ → Option S) (allocate_below : ℕ → S → ℕ → Option (ℕ × S))
    (image : List ℕ) (s : Setup) (fw fw' : S) (at : ℕ)
    → s.relocatable ≡ true
    → place_kernel allocate allocate_below image s fw ≡ ok (at, fw')
    → (p : ℕ) × (n : ℕ) × (allocate_below 0x1_0000_0000 fw n ≡ some (p, fw'))
      × (p ≤ at)
      × (at + need image s ≤ p + n * 4096)
unfolding place_kernel alloc_low
place_kernel-fits allocate allocate_below image s fw fw' at relocatable e =
    let n = max (div_ceil (need image s + s.alignment)) 1 in
    elim (Option-cases (allocate_below 0x1_0000_0000 fw n)) [
      | inl refused ↦ cc (rw (relocatable, refused) at e)
      | inr ((p, fw1), given) ↦
          let placed = ok-inj (rw (relocatable, given) at e) in
          let there : (if ltb 1 s.alignment then next_multiple_of p s.alignment else p) ≡ at =
            ap (λ q. q.0) placed in
          let same : fw1 ≡ fw' = ap (λ q. q.1) placed in
          let (after_start, inside) = aligned-fits p s.alignment (need image s) in
          (
            p,
            n,
            given ∙ ap (λ f. some (p, f)) same,
            rw there at after_start,
            omega (arith, there, inside),
          )
    ]
