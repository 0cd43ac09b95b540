-- ===== src/Linux/Handed/Stores.antt =====
-- src/linux.rs: the stores of `boot` for the kernel and the header.
use bang.Common.{
  ℕ, ◌+◌, ◌-◌, ◌≤◌, ◌<◌, ◌≡◌, ap, subst, ◌∙◌, inl, inr, true, some, List, arith, Memory, write,
  write_away, write_inside, fill, fill_inside, fill_outside, length, length-take, take, drop,
  get_or, Option-cases, Bool-cases,
}
use bang.Linux.{Setup, ok, need, div_ceil, hdr_end, place_kernel}
use bang.Linux.Boot.{with_kernel, with_header}
use bang.Linux.Image.{ok-inj, place_kernel-fits}
use bang.Linux.Regions.{Region, Beside, apart, Region-given, Region-write}
use bang.Uefi.{LowMemory, FixedMemory}

module _ (low : LowMemory) (fixed : FixedMemory low) where
  open low use {S, allocate_below, owned, takes, keeps_owned, ends_below}

  -- The kernel's bytes are the loader's, wherever it goes.
  place_kernel-owned :
      (image : List ℕ) (s : Setup) (fw fw' : S) (at : ℕ)
      → place_kernel fixed.allocate allocate_below image s fw ≡ ok (at, fw')
      → (a : ℕ) → at ≤ a
      → a < at + need image s
      → owned fw' a ≡ true
  unfolding place_kernel
  place_kernel-owned image s fw fw' at e a lo hi = elim (Bool-cases s.relocatable) [
    | inl free ↦
        let (p, n, given, starts, ends) =
          place_kernel-fits fixed.allocate allocate_below image s fw fw' at free e in
        takes 0x1_0000_0000 fw fw' n p a given (omega arith) (omega arith)
    | inr pinned ↦
        elim (Option-cases (fixed.allocate fw s.pref_address (div_ceil (need image s)))) [
          | inl refused ↦ cc (rw (pinned, refused) at e)
          | inr (fw1, given) ↦
              let placed : ok (s.pref_address, fw1) ≡ ok (at, fw') = rw (pinned, given) at e in
              let there : s.pref_address ≡ at = ap (λ p. p.0) (ok-inj placed) in
              let n = div_ceil (need image s) in
              subst (λ fw2. owned fw2 a ≡ true) (ap (λ p. p.1) (ok-inj placed))
                (fixed.takes_at fw fw1 s.pref_address n a given (omega (arith, there))
                  (omega (arith, there)))
        ]
  ]

  pub with_kernel-Region :
      (image : List ℕ) (s : Setup) (fw fw' : S) (at : ℕ) (m : Memory)
      → place_kernel fixed.allocate allocate_below image s fw ≡ ok (at, fw')
      → Region low fw' at
          (need image s)
          (λ o. get_or (drop s.kernel_offset image) o 0)
          (with_kernel image s at m)
  with_kernel-Region image s fw fw' at m e = record {
    ours = place_kernel-owned image s fw fw' at e;
    holds = λ o d.
        let zeroed = fill at 0 (need image s) m in
        write_inside at (drop s.kernel_offset image) zeroed o
        ∙ ap (get_or (drop s.kernel_offset image) o) (fill_inside at 0 (need image s) m o d);
  }

  module _ (image : List ℕ) (params : ℕ) (m : Memory) (fw fw' : S)
      (given : allocate_below 0x1_0000_0000 fw 1 ≡ some (params, fw')) where
    abbrev header : List ℕ
    header = take (hdr_end image - 0x1f1) (drop 0x1f1 image)

    length-header : 0x1f1 + length header ≤ 4096
    length-header = ground (arith, length-take (hdr_end image - 0x1f1) (drop 0x1f1 image))

    pub with_header-Region :
        Region low fw' params 4096 (write 0x1f1 header (λ o. 0)) (with_header image params m)
    with_header-Region =
        Region-write low fw' params 4096 (λ o. 0) (fill params 0 4096 m) blank 0x1f1 header
      where
        blank : Region low fw' params 4096 (λ o. 0) (fill params 0 4096 m)
        blank = record {
          ours = λ a lo hi. takes 0x1_0000_0000 fw fw' 1 params a given lo (omega arith);
          holds = λ o d. fill_inside params 0 4096 m o d;
        }

    pub with_header-keeps :
        (at n : ℕ) (c : ℕ → ℕ)
        → Region low fw at n c m
        → Region low fw' at n c (with_header image params m)
    with_header-keeps at n c r =
        Region-given low fw at n c m r 0x1_0000_0000 1 params fw' given (with_header image params m)
          (λ a out.
            write_away (params + 0x1f1) header (fill params 0 4096 m) a
              (omega (arith, out, length-header))
            ∙ fill_outside params 0 4096 m a (omega (arith, out)))

    pub kernel-Beside : (at n : ℕ) (c : ℕ → ℕ) → Region low fw at n c m → Beside params at n
    kernel-Beside at n c r a lo hi =
        let out = apart low fw at n c m r 0x1_0000_0000 1 params fw' given a lo hi in
        omega (arith, out)
