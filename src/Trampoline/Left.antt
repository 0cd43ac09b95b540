-- ===== src/Trampoline/Left.antt =====
-- src/trampoline.rs: the machine after the 64-bit part, in the copied piece.
use bang.Common.{
  ℕ, ◌+◌, ◌-◌, ◌%◌, ◌^◌, ◌≤◌, ◌<◌, ◌≡◌, refl, ap, ◌∙◌, inr, false, ◌||◌, List, [], ◌∷◌, arith,
  Memory, write, read, le_bytes, from_le, from_le-le_bytes8, read-write, get_or, ltb,
}
use bang.Trampoline.{Cpu, Layout, tramp_addr, rcx, rdx, rsp, r8, copy_blob, leave_64}
use bang.Trampoline.Slots.{
  read-write_away, with_slots, with_base, with_stack, descriptor_there, limit_there, base_there,
}

-- Four gigabytes from address 0: 32-bit code, and data.
abbrev pub flat_code : List ℕ
flat_code = 0xff ∷ 0xff ∷ 0 ∷ 0 ∷ 0 ∷ 0x9a ∷ 0xcf ∷ 0 ∷ []

abbrev pub flat_data : List ℕ
flat_data = 0xff ∷ 0xff ∷ 0 ∷ 0 ∷ 0 ∷ 0x92 ∷ 0xcf ∷ 0 ∷ []

-- The piece to copy is at `here`, assembled with its slots first and its tables last, and neither
-- it nor the stack is where it is copied to.
pub record IsPlaced (l : Layout) (here : ℕ) (c : Cpu) : Type 0 where
  pub slots : 0x0e ≤ l.gdt
  pub table : l.gdt + 24 ≤ l.gdt_ptr
  pub fits : l.gdt_ptr + 10 ≤ l.size
  pub in_code : (l.code < l.size) × (l.pm32 < l.size)
  pub above : tramp_addr + l.size ≤ here
  pub below : here + l.size ≤ 2 ^ 64
  pub stack : tramp_addr + l.size + 16 ≤ c.regs rsp
  pub code_bytes : (i : ℕ) → i < 8 → c.memory (here + (l.gdt + 8 + i)) ≡ get_or flat_code i 0
  pub data_bytes : (i : ℕ) → i < 8 → c.memory (here + (l.gdt + 16 + i)) ≡ get_or flat_data i 0
  pub limit_bytes : (i : ℕ) → i < 2 → c.memory (here + (l.gdt_ptr + i)) ≡ get_or (le_bytes 2 23) i 0
  pub sound : c.faulted ≡ false

relocated-eq :
    (here label : ℕ)
    → tramp_addr + label < 2 ^ 64
    → ((here + label + 2 ^ 64 - here) % 2 ^ 64 + tramp_addr) % 2 ^ 64 ≡ tramp_addr + label
relocated-eq here label h = omega arith

-- After the 64-bit part, in 32-bit code of the copied piece.
pub record IsLeft (l : Layout) (here : ℕ) (c c' : Cpu) : Type 0 where
  pub memory :
      c'.memory
      ≡ with_stack l here
          (c.regs rcx % 2 ^ 32)
          (c.regs rdx % 2 ^ 32)
          (c.regs r8)
          (c.regs rsp)
          c.memory
  pub gdt_base : c'.gdt_base ≡ tramp_addr + l.gdt
  pub gdt_limit : c'.gdt_limit ≡ 23
  pub cs : c'.cs ≡ flat_code
  pub next : c'.next ≡ tramp_addr + l.code
  pub faulted : c'.faulted ≡ false
  pub interrupts : c'.interrupts ≡ false

module _ (l : Layout) (here : ℕ) (c : Cpu) (p : IsPlaced l here c) where
  abbrev c1 : Cpu
  c1 = copy_blob l here c

  abbrev pub c2 : Cpu
  c2 = leave_64 l here c1

  copied_size : (here + l.size + 2 ^ 64 - here) % 2 ^ 64 ≡ l.size
  copied_size = omega (arith, p.above, p.below)

  c1-memory :
      c1.memory
      ≡ with_slots l here
          (c.regs rcx % 2 ^ 32)
          (c.regs rdx % 2 ^ 32)
          (c.regs r8)
          (c.regs rsp)
          c.memory
  unfolding copy_blob
  c1-memory = rw copied_size refl

  c2-memory :
      c2.memory
      ≡ with_stack l here
          (c.regs rcx % 2 ^ 32)
          (c.regs rdx % 2 ^ 32)
          (c.regs r8)
          (c.regs rsp)
          c.memory
  unfolding copy_blob leave_64
  c2-memory =
      rw
        (
          copied_size,
          relocated-eq here l.gdt (omega (arith, p.table, p.fits, p.above, p.below)),
          relocated-eq here (l.gdt_ptr + 2) (omega (arith, p.table, p.fits, p.above, p.below)),
          relocated-eq here l.code (omega (arith, p.in_code, p.above, p.below)),
        )
        refl

  abbrev pub entry : ℕ
  entry = c.regs rcx % 2 ^ 32

  abbrev pub mbi : ℕ
  mbi = c.regs rdx % 2 ^ 32

  abbrev pub stacked : Memory
  stacked = with_stack l here entry mbi (c.regs r8) (c.regs rsp) c.memory

  c2-gdt_base : c2.gdt_base ≡ tramp_addr + l.gdt
  unfolding copy_blob leave_64
  c2-gdt_base =
      rw
        (
          copied_size,
          relocated-eq here l.gdt (omega (arith, p.table, p.fits, p.above, p.below)),
          relocated-eq here (l.gdt_ptr + 2) (omega (arith, p.table, p.fits, p.above, p.below)),
          relocated-eq here l.gdt_ptr (omega (arith, p.table, p.fits, p.above, p.below)),
        )
        (base_there l here entry mbi (c.regs r8) (c.regs rsp) c.memory p.slots p.table p.fits
          p.stack (omega (arith, p.table, p.fits, p.above, p.below)))

  c2-gdt_limit : c2.gdt_limit ≡ 23
  unfolding copy_blob leave_64
  c2-gdt_limit =
      rw
        (
          copied_size,
          relocated-eq here l.gdt (omega (arith, p.table, p.fits, p.above, p.below)),
          relocated-eq here (l.gdt_ptr + 2) (omega (arith, p.table, p.fits, p.above, p.below)),
          relocated-eq here l.gdt_ptr (omega (arith, p.table, p.fits, p.above, p.below)),
        )
        (limit_there l here entry mbi (c.regs r8) (c.regs rsp) c.memory p.slots p.table p.fits
          p.stack p.limit_bytes)

  -- What `retfq` takes from the stack.
  abbrev selector : Memory → ℕ
  selector m = from_le (read 8 (c.regs rsp - 8 - 8 + 8) m)

  popped_selector : selector stacked ≡ 0x08
  popped_selector =
      let there : c.regs rsp - 8 - 8 + 8 ≡ c.regs rsp - 8 = omega (arith, p.stack) in
      let based = with_base l here entry mbi (c.regs r8) (c.regs rsp) c.memory in
      ap (λ a. from_le (read 8 a stacked)) there
      ∙ ap from_le (
          read-write_away 8 (c.regs rsp - 8) (c.regs rsp - 8 - 8) (le_bytes 8 (tramp_addr + l.code))
            (write (c.regs rsp - 8) (le_bytes 8 0x08) based) (inr (omega (arith, p.stack)))
          ∙ read-write (c.regs rsp - 8) (le_bytes 8 0x08) based)

  popped_target : from_le (read 8 (c.regs rsp - 8 - 8) stacked) ≡ tramp_addr + l.code
  popped_target =
      let small : (tramp_addr + l.code) % 2 ^ 64 ≡ tramp_addr + l.code =
        omega (arith, p.in_code, p.above, p.below) in
      ap from_le (read-write (c.regs rsp - 8 - 8) (le_bytes 8 (tramp_addr + l.code)) _)
      ∙ from_le-le_bytes8 (tramp_addr + l.code)
      ∙ small

  pub code_there : read 8 (tramp_addr + (l.gdt + 8)) stacked ≡ flat_code
  code_there =
      descriptor_there l here entry mbi (c.regs r8) (c.regs rsp) c.memory p.slots p.table p.fits
        p.stack (l.gdt + 8) flat_code refl (omega arith) (omega (arith, p.table)) p.code_bytes

  pub data_there : read 8 (tramp_addr + (l.gdt + 16)) stacked ≡ flat_data
  data_there =
      descriptor_there l here entry mbi (c.regs r8) (c.regs rsp) c.memory p.slots p.table p.fits
        p.stack (l.gdt + 16) flat_data refl (omega arith) (omega (arith, p.table)) p.data_bytes

  pub code_at : c2.gdt_base + 8 ≡ tramp_addr + (l.gdt + 8)
  code_at = omega (arith, c2-gdt_base)

  pub data_at : c2.gdt_base + 16 ≡ tramp_addr + (l.gdt + 16)
  data_at = omega (arith, c2-gdt_base)

  c2-selector : selector c2.memory ≡ 0x08
  c2-selector = ap selector c2-memory ∙ popped_selector

  c2-cs : c2.cs ≡ flat_code
  unfolding copy_blob leave_64
  c2-cs =
      let first : c2.cs ≡ read 8 (c2.gdt_base + selector c2.memory) c2.memory = refl in
      first
      ∙ ap (λ s. read 8 (c2.gdt_base + s) c2.memory) c2-selector
      ∙ ap (λ a. read 8 a c2.memory) code_at
      ∙ ap (read 8 (tramp_addr + (l.gdt + 8))) c2-memory
      ∙ code_there

  c2-next : c2.next ≡ tramp_addr + l.code
  unfolding copy_blob leave_64
  c2-next =
      let first : c2.next ≡ from_le (read 8 (c.regs rsp - 8 - 8) c2.memory) = refl in
      first ∙ ap (λ m. from_le (read 8 (c.regs rsp - 8 - 8) m)) c2-memory ∙ popped_target

  c2-faulted : c2.faulted ≡ false
  unfolding copy_blob leave_64
  c2-faulted =
      let first : c2.faulted ≡ (c.faulted || ltb c2.gdt_limit (selector c2.memory + 7)) = refl in
      first
      ∙ ap (λ s. c.faulted || ltb c2.gdt_limit (s + 7)) c2-selector
      ∙ ap (λ n. c.faulted || ltb n 15) c2-gdt_limit
      ∙ ap (λ b. b || false) p.sound

  pub c2-IsLeft : IsLeft l here c c2
  unfolding copy_blob leave_64
  c2-IsLeft = record {
    memory = c2-memory;
    gdt_base = c2-gdt_base;
    gdt_limit = c2-gdt_limit;
    cs = c2-cs;
    next = c2-next;
    faulted = c2-faulted;
    interrupts = refl;
  }
