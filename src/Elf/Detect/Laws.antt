-- ===== src/Elf/Detect/Laws.antt =====
-- src/elf.rs: `detect_multiboot_version` against a description of what it looks for.
use bang.Common.{
  ℕ, zero, suc, ◌+◌, ◌*◌, ◌/◌, ◌%◌, ◌^◌, ◌≤◌, ◌<◌, ◌≡◌, ◌↔◌, refl, inl, inr, Bool, true, false,
  Option, some, ◌>>=◌, List, arith, leb, leb→le, leb→lt, ◌==◌, if◌then◌else◌, length, Bool-cases,
}
use bang.Elf.{mb1_header_magic, mb2_header_magic, word, u32_at}
use bang.Elf.Detect.{mb2_at, mb1_at, scan, mb2_limit, mb1_limit, detect_multiboot_version}

-- A Multiboot2 header at `off`: eight-byte aligned, all of it in the first 32768 bytes of the file,
-- with its magic number, and with four words that add up to 0.
pub record IsMb2Header (buf : List ℕ) (off : ℕ) : Type 0 where
  pub aligned : off % 8 ≡ 0
  pub inside : (off + 16 ≤ length buf) × (off + 16 ≤ 32768)
  pub magic : word 4 buf off ≡ 0xe852_50d6
  pub checksum :
      (word 4 buf off + word 4 buf (off + 4) + word 4 buf (off + 8) + word 4 buf (off + 12))
        % 2 ^ 32
      ≡ 0

-- A Multiboot1 header at `off`: four-byte aligned, within the first 8192 bytes, three words.
pub record IsMb1Header (buf : List ℕ) (off : ℕ) : Type 0 where
  pub aligned : off % 4 ≡ 0
  pub inside : (off + 12 ≤ length buf) × (off + 12 ≤ 8192)
  pub magic : word 4 buf off ≡ 0x1bad_b002
  pub checksum : (word 4 buf off + word 4 buf (off + 4) + word 4 buf (off + 8)) % 2 ^ 32 ≡ 0

-- The version of a file: 2 wherever there is a Multiboot2 header, else 1 wherever there is a
-- Multiboot1 header, else 0.
pub data HasVersion (buf : List ℕ) (v : ℕ) : Type 0 where
  two : (off : ℕ) → IsMb2Header buf off → v ≡ 2 → HasVersion buf v
  one : (off : ℕ) → ((o : ℕ) → ¬ IsMb2Header buf o) → IsMb1Header buf off → v ≡ 1 → HasVersion buf v
  neither :
      ((o : ℕ) → ¬ IsMb2Header buf o) → ((o : ℕ) → ¬ IsMb1Header buf o) → v ≡ 0 → HasVersion buf v

u32_at_inside :
    (buf : List ℕ) (off : ℕ) → off + 4 ≤ length buf → u32_at buf off ≡ some (word 4 buf off)
unfolding u32_at
u32_at_inside buf off h = ground arith

-- What the two tests decide where their reads are in range.
abbrev mb2_hit : List ℕ → ℕ → Bool
mb2_hit buf off =
    if word 4 buf off == mb2_header_magic
    then ((((word 4 buf off + word 4 buf (off + 4)) % 2 ^ 32 + word 4 buf (off + 8)) % 2 ^ 32
            + word 4 buf (off + 12))
          % 2 ^ 32
        == 0)
    else false

abbrev mb1_hit : List ℕ → ℕ → Bool
mb1_hit buf off =
    if word 4 buf off == mb1_header_magic
    then (((word 4 buf off + word 4 buf (off + 4)) % 2 ^ 32 + word 4 buf (off + 8)) % 2 ^ 32 == 0)
    else false

mb2_at_inside :
    (buf : List ℕ) (off : ℕ) → off + 16 ≤ length buf → mb2_at buf off ≡ some (mb2_hit buf off)
unfolding mb2_at
mb2_at_inside buf off h =
    rw
      (
        u32_at_inside buf off (omega arith),
        u32_at_inside buf (off + 4) (omega arith),
        u32_at_inside buf (off + 8) (omega arith),
        u32_at_inside buf (off + 12) (omega arith),
      )
      (elim (Bool-cases (word 4 buf off == mb2_header_magic)) [ inl e ↦ rw e | inr e ↦ rw e ])

mb1_at_inside :
    (buf : List ℕ) (off : ℕ) → off + 12 ≤ length buf → mb1_at buf off ≡ some (mb1_hit buf off)
unfolding mb1_at
mb1_at_inside buf off h =
    rw
      (
        u32_at_inside buf off (omega arith),
        u32_at_inside buf (off + 4) (omega arith),
        u32_at_inside buf (off + 8) (omega arith),
      )
      (elim (Bool-cases (word 4 buf off == mb1_header_magic)) [ inl e ↦ rw e | inr e ↦ rw e ])

-- The loop finds a hit at a multiple of the stride, or there is none.
data Scanned (stride window limit off : ℕ) (hit : ℕ → Bool) (r : Option Bool) : Type 0 where
  found :
      (k : ℕ)
      → off + k * stride + window ≤ limit
      → hit (off + k * stride) ≡ true
      → r ≡ some true
      → Scanned stride window limit off hit r
  missing :
      ((k : ℕ) → off + k * stride + window ≤ limit → hit (off + k * stride) ≡ false)
      → r ≡ some false
      → Scanned stride window limit off hit r

module _ {stride window limit off : ℕ} {hit : ℕ → Bool} where
  Scanned-over :
      {r : Option Bool}
      → limit < off + window
      → r ≡ some false
      → Scanned stride window limit off hit r
  Scanned-over h e = missing (λ k p. absurd (omega arith)) e

  Scanned-next :
      {r : Option Bool}
      → hit off ≡ false
      → Scanned stride window limit (off + stride) hit r
      → Scanned stride window limit off hit r
  Scanned-next miss (found k p e q) =
      let there : off + stride + k * stride ≡ off + suc k * stride = omega arith in
      found (suc k) (omega arith) (rw there at e) q
  Scanned-next miss (missing none_left q) = missing all_miss q
    where
      all_miss : (k : ℕ) → off + k * stride + window ≤ limit → hit (off + k * stride) ≡ false
      all_miss zero p = let there : off + 0 * stride ≡ off = omega arith in rw there miss
      all_miss (suc k) p =
          let there : off + stride + k * stride ≡ off + suc k * stride = omega arith in
          rw there at (none_left k (omega arith))

module _ (stride window limit : ℕ) (test : ℕ → Option Bool) (hit : ℕ → Bool)
    (total : (off : ℕ) → off + window ≤ limit → test off ≡ some (hit off)) where
  scan-Scanned :
      (f off : ℕ)
      → limit < off + window + f * stride
      → Scanned stride window limit off hit (scan (suc f) stride window limit test off)
  unfolding scan
  scan-Scanned zero off h =
      let over : limit < off + window = omega arith in Scanned-over over (ground arith)
  scan-Scanned (suc f) off h = elim (Bool-cases (leb (off + window) limit)) [
    | inr over ↦ Scanned-over (leb→lt _ _ over) (rw over)
    | inl within ↦
        let found_at = total off (leb→le _ _ within) in
        elim (Bool-cases (hit off)) [
          | inl here ↦
              let there : off + 0 * stride ≡ off = omega arith in
              found 0 (omega (arith, leb→le _ _ within)) (rw there here)
                (rw (within, found_at, here))
          | inr miss ↦
              rw (within, found_at, miss)
                (Scanned-next miss (scan-Scanned f (off + stride) (omega arith)))
        ]
  ]

mb2_hit_iff :
    (buf : List ℕ) (off : ℕ)
    → off % 8 ≡ 0
    → off + 16 ≤ mb2_limit buf
    → (mb2_hit buf off ≡ true) ↔ IsMb2Header buf off
mb2_hit_iff buf off a h = (
  λ e. record {
    aligned = a;
    inside = (omega arith, omega arith);
    magic = ground arith;
    checksum = ground arith;
  },
  λ p. ground (arith, p.magic, p.checksum),
)

mb1_hit_iff :
    (buf : List ℕ) (off : ℕ)
    → off % 4 ≡ 0
    → off + 12 ≤ mb1_limit buf
    → (mb1_hit buf off ≡ true) ↔ IsMb1Header buf off
mb1_hit_iff buf off a h = (
  λ e. record {
    aligned = a;
    inside = (omega arith, omega arith);
    magic = ground arith;
    checksum = ground arith;
  },
  λ p. ground (arith, p.magic, p.checksum),
)

-- A header is at a multiple of the stride, so a scan that found none at those found none at all.
mb2_missing :
    (buf : List ℕ)
    → ((k : ℕ) → 0 + k * 8 + 16 ≤ mb2_limit buf → mb2_hit buf (0 + k * 8) ≡ false)
    → (o : ℕ) → ¬ IsMb2Header buf o
mb2_missing buf none_left o p =
    let there : 0 + o / 8 * 8 ≡ o = omega (arith, p.aligned) in
    let miss : mb2_hit buf o ≡ false =
      rw there at (none_left (o / 8) (omega (arith, p.aligned, p.inside))) in
    cc (miss, (mb2_hit_iff buf o p.aligned (omega (arith, p.inside))).1 p)

mb1_missing :
    (buf : List ℕ)
    → ((k : ℕ) → 0 + k * 4 + 12 ≤ mb1_limit buf → mb1_hit buf (0 + k * 4) ≡ false)
    → (o : ℕ) → ¬ IsMb1Header buf o
mb1_missing buf none_left o p =
    let there : 0 + o / 4 * 4 ≡ o = omega (arith, p.aligned) in
    let miss : mb1_hit buf o ≡ false =
      rw there at (none_left (o / 4) (omega (arith, p.aligned, p.inside))) in
    cc (miss, (mb1_hit_iff buf o p.aligned (omega (arith, p.inside))).1 p)

mb2_scan :
    (buf : List ℕ)
    → Scanned 8 16
        (mb2_limit buf)
        0
        (mb2_hit buf)
        (scan (suc (mb2_limit buf / 8)) 8 16 (mb2_limit buf) (mb2_at buf) 0)
mb2_scan buf =
    scan-Scanned 8 16 (mb2_limit buf) (mb2_at buf) (mb2_hit buf)
      (λ off h. mb2_at_inside buf off (omega arith)) (mb2_limit buf / 8) 0 (omega arith)

mb1_scan :
    (buf : List ℕ)
    → Scanned 4 12
        (mb1_limit buf)
        0
        (mb1_hit buf)
        (scan (suc (mb1_limit buf / 4)) 4 12 (mb1_limit buf) (mb1_at buf) 0)
mb1_scan buf =
    scan-Scanned 4 12 (mb1_limit buf) (mb1_at buf) (mb1_hit buf)
      (λ off h. mb1_at_inside buf off (omega arith)) (mb1_limit buf / 4) 0 (omega arith)

abbrev mb1_rest : Option Bool → Option ℕ
mb1_rest r = r >>= λ mb1. some (if mb1 then 1 else 0)

version_after_mb2 :
    (buf : List ℕ) {r : Option Bool}
    → ((o : ℕ) → ¬ IsMb2Header buf o)
    → Scanned 4 12 (mb1_limit buf) 0 (mb1_hit buf) r
    → (v : ℕ) × (mb1_rest r ≡ some v) × HasVersion buf v
version_after_mb2 buf no_mb2 (found k p e q) =
    (1, rw q, one (0 + k * 4) no_mb2 ((mb1_hit_iff buf (0 + k * 4) (omega arith) p).0 e) refl)
version_after_mb2 buf no_mb2 (missing none_left q) =
    (0, rw q, neither no_mb2 (mb1_missing buf none_left) refl)

version_of_scans :
    (buf : List ℕ) {r s : Option Bool}
    → Scanned 8 16 (mb2_limit buf) 0 (mb2_hit buf) r
    → Scanned 4 12 (mb1_limit buf) 0 (mb1_hit buf) s
    → (v : ℕ) × ((r >>= λ mb2. if mb2 then some 2 else mb1_rest s) ≡ some v) × HasVersion buf v
version_of_scans buf (found k p e q) s =
    (2, rw q, two (0 + k * 8) ((mb2_hit_iff buf (0 + k * 8) (omega arith) p).0 e) refl)
version_of_scans buf (missing none_left q) s =
    rw q (version_after_mb2 buf (mb2_missing buf none_left) s)

-- On every file the detection returns, reading nothing out of range, and its result is the version
-- of the file: 2 if there is a Multiboot2 header anywhere it may stand, else 1 if there is a
-- Multiboot1 header, and 0 only if there is neither.
pub detect_multiboot_version-HasVersion :
    (buf : List ℕ) → (v : ℕ) × (detect_multiboot_version buf ≡ some v) × HasVersion buf v
unfolding detect_multiboot_version
detect_multiboot_version-HasVersion buf = version_of_scans buf (mb2_scan buf) (mb1_scan buf)
