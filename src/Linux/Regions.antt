-- ===== src/Linux/Regions.antt =====
-- src/linux.rs: pieces of memory that `boot` fills, one after the other, and that keep what they
-- hold.
use bang.Common.{
  ℕ, ◌+◌, ◌-◌, ◌*◌, ◌≤◌, ◌<◌, ◌≡◌, refl, ◌∙◌, ◌⊎◌, inl, inr, true, false, some, List, arith, Memory,
  write, write_away, ltb, length, Bool-cases,
}
use bang.Uefi.{LowMemory}
use bang.Uefi.Pages.{owned_outside}

-- `n` bytes at `at` that are the loader's, and hold what `c` says for each offset.
pub record Region (low : LowMemory) (fw : low.S) (at n : ℕ) (c : ℕ → ℕ) (m : Memory) : Type 0 where
  pub ours : (a : ℕ) → at ≤ a → a < at + n → low.owned fw a ≡ true
  pub holds : (o : ℕ) → o < n → m (at + o) ≡ c o

-- `n` bytes at `at` outside the page at `params`.
abbrev pub Beside : ℕ → ℕ → ℕ → Type 0
Beside params at n = (a : ℕ) → at ≤ a → a < at + n → (a < params) ⊎ (params + 4096 ≤ a)

-- A store at an offset, seen from the start of the page.
pub write_offset :
    (at o i : ℕ) (bs : List ℕ) (c : ℕ → ℕ) (m : Memory)
    → m (at + i) ≡ c i
    → write (at + o) bs m (at + i) ≡ write o bs c i
unfolding write
write_offset at o i bs c m h =
    let same : at + i - (at + o) ≡ i - o = omega arith in
    elim (Bool-cases (ltb i o)) [
      | inl before ↦
          let before' : ltb (at + i) (at + o) ≡ true = ground (arith, before) in
          rw (before, before') h
      | inr from_on ↦
          let from_on' : ltb (at + i) (at + o) ≡ false = ground (arith, from_on) in
          rw (from_on, from_on', same, h) refl
    ]

module _ (low : LowMemory) (fw : low.S) (at n : ℕ) (c : ℕ → ℕ) (m : Memory)
    (r : Region low fw at n c m) where
  -- Pages given later are apart, and what is written to them leaves the region alone.
  module _ (limit pages p : ℕ) (fw' : low.S)
      (given : low.allocate_below limit fw pages ≡ some (p, fw')) where
    pub apart : (a : ℕ) → at ≤ a → a < at + n → (a < p) ⊎ (p + pages * 4096 ≤ a)
    apart a lo hi = owned_outside low limit fw fw' pages p a given (r.ours a lo hi)

    pub Region-given :
        (m' : Memory)
        → ((a : ℕ) → (a < p) ⊎ (p + pages * 4096 ≤ a) → m' a ≡ m a)
        → Region low fw' at n c m'
    Region-given m' h = record {
      ours = λ a lo hi. low.keeps_owned limit fw fw' pages p a given (r.ours a lo hi);
      holds = λ o d. h (at + o) (apart (at + o) (omega arith) (omega arith)) ∙ r.holds o d;
    }

  -- A store to the page at `params` leaves a region beside it alone.
  pub Region-beside :
      (params o : ℕ) (bs : List ℕ)
      → Beside params at n
      → o + length bs ≤ 4096
      → Region low fw at n c (write (params + o) bs m)
  Region-beside params o bs beside fits = record {
    ours = r.ours;
    holds = λ i d.
        let out = beside (at + i) (omega arith) (omega arith) in
        write_away (params + o) bs m (at + i) (omega (arith, out, fits)) ∙ r.holds i d;
  }

  -- A store to the region itself.
  pub Region-write : (o : ℕ) (bs : List ℕ) → Region low fw at n (write o bs c) (write (at + o) bs m)
  Region-write o bs = record {
    ours = r.ours;
    holds = λ i d. write_offset at o i bs c m (r.holds i d);
  }
