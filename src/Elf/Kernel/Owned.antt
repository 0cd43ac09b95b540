-- ===== src/Elf/Kernel/Owned.antt =====
-- src/elf.rs: every byte of a loaded kernel's segments is the loader's own memory.
use bang.Common.{
  ℕ, ◌+◌, ◌*◌, ◌%◌, ◌^◌, ◌≤◌, ◌<◌, ◌≡◌, refl, sym, ap, ◌∙◌, inl, inr, true, false, ◌&&◌, some, List,
  [], ◌∷◌, arith, All, ltb, leb, length, Bool-cases, Option-cases,
}
use bang.Elf.{KernelInfo}
use bang.Elf.Kernel.{ok, Phdr, load_kernel}
use bang.Elf.Kernel.Image.{
  byte_of, image_byte, or_else, HasRoom, Owns, kernel_segments, load_kernel-IsImage,
}
use bang.Elf.Segment.{Loader, Records, page_base, page_allocated}
use bang.Elf.Segment.Claim.{Firmware, IsRecorded}
use bang.Uefi.{LowMemory, FixedMemory}

-- A segment that has a byte at an address reaches it.
byte_of_reached :
    (buf : List ℕ) (p : Phdr) (a b : ℕ)
    → byte_of buf p a ≡ some b
    → (p.p_paddr ≤ a) × (a < p.p_paddr + p.p_memsz)
byte_of_reached buf p a b e = elim (Bool-cases (leb p.p_paddr a && ltb a (p.p_paddr + p.p_memsz))) [
  | inl inside ↦ (ground (arith, inside), ground (arith, inside))
  | inr outside ↦ cc (rw outside at e)
]

image_byte-owned :
    (fw : Firmware) (buf : List ℕ) (l : Loader fw.S) (ps : List Phdr) (a b : ℕ)
    → All (Owns fw buf l) ps
    → image_byte buf ps a ≡ some b
    → fw.owned l.firmware (page_base a) ≡ true
image_byte-owned fw buf l [] a b h e = absurd cc
image_byte-owned fw buf l (p ∷ ps) a b h e = elim (Option-cases (image_byte buf ps a)) [
  | inr (c, later) ↦ image_byte-owned fw buf l ps a c h.1 later
  | inl none_later ↦
      let (low, high) = byte_of_reached buf p a b (rw none_later at e) in h.0 a low high
]

nothing_allocated : (rs : Records) (q : ℕ) → rs ≡ [] → page_allocated rs q ≡ false
unfolding page_allocated
nothing_allocated rs q e = rw e refl

module _ (low : LowMemory) (fixed : FixedMemory low) where
  -- The firmware's pages, each seen at the byte that stands `j` into it.
  abbrev at_byte : (j : ℕ) → j < 4096 → Firmware
  at_byte j small = record {
    S = low.S;
    allocate = fixed.allocate;
    owned = λ s q. low.owned s (q + j);
    grants = λ s s' page n i e lt.
        fixed.takes_at s s' page n (page + i * 4096 + j) e (omega arith) (omega arith);
    keeps = λ s s' page n q e o. fixed.keeps_at s s' page n (q + j) e o;
  }

  -- A kernel that is loaded with no records of pages yet, whose segments all end at least a page
  -- below 2^64: where a segment reaches, the byte of the last one that does is in memory, and it is
  -- the loader's own.
  pub load_kernel-owned :
      (buf : List ℕ) (l l' : Loader low.S) (k : KernelInfo) (a b : ℕ)
      → length buf < 2 ^ 64
      → All HasRoom (kernel_segments buf)
      → l.records ≡ []
      → load_kernel fixed.allocate buf l ≡ ok (k, l')
      → image_byte buf (kernel_segments buf) a ≡ some b
      → (l'.mem a ≡ b) × (low.owned l'.firmware a ≡ true)
  load_kernel-owned buf l l' k a b fits room none_yet e reached =
      let fw = at_byte (a % 4096) (omega arith) in
      let recorded : IsRecorded fw l =
        λ q aligned on_record. cc (nothing_allocated l.records q none_yet, on_record) in
      let image = load_kernel-IsImage fw buf l l' k fits room recorded e in
      let there : page_base a + a % 4096 ≡ a = omega arith in
      (
        image.bytes a ∙ ap (λ o. or_else o (l.mem a)) reached,
        ap (low.owned l'.firmware) (sym there)
            ∙ image_byte-owned fw buf l' _ a b image.pages reached,
      )
