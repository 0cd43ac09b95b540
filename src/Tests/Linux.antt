-- ===== src/Tests/Linux.antt =====
-- Runs of the Linux handover's checks.
use bang.Common.{
  ℕ, ◌+◌, ◌-◌, ◌*◌, ◌≡◌, refl, Option, none, some, true, List, [], ◌∷◌, ◌++◌, leb, if◌then◌else◌,
  le_bytes, replicate,
}
use bang.Linux.{Setup, ok, fail, load_error, check, alloc_low, place_kernel}
use bang.Linux.Image.{IsBzImage, check-IsBzImage}

abbrev pub image : List ℕ
image =
    replicate 0x1f1 0
    ++ (1
        ∷ (replicate 12 0
            ++ (le_bytes 2 0xaa55
                ++ (0xeb
                    ∷ 0x66
                    ∷ (le_bytes 4 0x5372_6448
                        ++ (le_bytes 2 0x20f
                            ++ (replicate 0x28 0
                                ++ (le_bytes 4 0x20_0000
                                    ++ (1
                                        ∷ 0
                                        ∷ (le_bytes 2 0x2b
                                            ++ (replicate 0x28 0
                                                ++ (le_bytes 4 0x10_0000
                                                    ++ (le_bytes 4 0x190
                                                        ++ replicate 4000 7)))))))))))))

abbrev setup : Setup
setup = record {
  kernel_offset = 1024;
  handover_offset = 0x190;
  init_size = 0x10_0000;
  alignment = 0x20_0000;
  relocatable = true;
  pref_address = 0;
}

check-image : check image ≡ ok setup
unfolding check
check-image = refl

check-short : check (0 ∷ 1 ∷ []) ≡ fail load_error
unfolding check
check-short = refl

check-IsBzImage_example : IsBzImage image setup
check-IsBzImage_example = check-IsBzImage image setup check-image

abbrev give : ℕ → ℕ → ℕ → Option ℕ
give top page n = if leb top page then some (page + n * 4096) else none

-- Gives pages from the limit downwards.
abbrev give_below : ℕ → ℕ → ℕ → Option (ℕ × ℕ)
give_below limit top n = if leb (n * 4096) top then some (top - n * 4096, top - n * 4096) else none

place_kernel-image : place_kernel give give_below image setup 0x100_1000 ≡ ok (0xe0_0000, 0xd0_1000)
unfolding place_kernel alloc_low
place_kernel-image = refl
