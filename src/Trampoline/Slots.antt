-- ===== src/Trampoline/Slots.antt =====
-- src/trampoline.rs: memory after the 64-bit part: the copied piece with its slots, and the stack.
use bang.Common.{
  ℕ, ◌+◌, ◌-◌, ◌%◌, ◌^◌, ◌≤◌, ◌<◌, ◌≡◌, ap, ◌∙◌, ◌⊎◌, inl, inr, List, arith, Memory, write,
  write_away, write_inside, read, read_is, read_congr, read-write, length, length-read, le_bytes,
  from_le, from_le-le_bytes4, from_le-le_bytes8, get_or, get_or-read,
}
use bang.Trampoline.{Layout, tramp_addr}

pub read-write_away :
    (n at q : ℕ) (bs : List ℕ) (m : Memory)
    → (at + n ≤ q) ⊎ (q + length bs ≤ at)
    → read n at (write q bs m) ≡ read n at m
read-write_away n at q bs m h =
    read_congr n at (write q bs m) m (λ a lo hi. write_away q bs m a (omega (arith, h)))

module _ (l : Layout) (here entry mbi magic rsp : ℕ) (m : Memory) where
  abbrev pub copied : Memory
  copied = write tramp_addr (read l.size here m) m

  abbrev pub with_slots : Memory
  with_slots = write (tramp_addr + 0x0a) (le_bytes 4 magic) (
      write (tramp_addr + 0x06) (le_bytes 4 mbi)
        (write (tramp_addr + 0x02) (le_bytes 4 entry) copied))

  abbrev pub with_base : Memory
  with_base = write (tramp_addr + (l.gdt_ptr + 2)) (le_bytes 8 (tramp_addr + l.gdt)) with_slots

  abbrev pub with_stack : Memory
  with_stack =
      write (rsp - 8 - 8) (le_bytes 8 (tramp_addr + l.code))
        (write (rsp - 8) (le_bytes 8 0x08) with_base)

  module _ (slots : 0x0e ≤ l.gdt) (table : l.gdt + 24 ≤ l.gdt_ptr) (fits : l.gdt_ptr + 10 ≤ l.size)
      (stack : tramp_addr + l.size + 16 ≤ rsp) where
    -- Where neither the piece is copied to nor the stack grows.
    pub with_stack-frame :
        (a : ℕ)
        → (a < tramp_addr) ⊎ (tramp_addr + l.size ≤ a)
        → (a + 16 < rsp) ⊎ (rsp ≤ a)
        → with_stack a ≡ m a
    with_stack-frame a p q =
        write_away (rsp - 8 - 8) (le_bytes 8 (tramp_addr + l.code))
          (write (rsp - 8) (le_bytes 8 0x08) with_base) a (omega (arith, q))
        ∙ write_away (rsp - 8) (le_bytes 8 0x08) with_base a (omega (arith, q))
        ∙ write_away (tramp_addr + (l.gdt_ptr + 2)) (le_bytes 8 (tramp_addr + l.gdt)) with_slots a
            (omega (arith, p))
        ∙ write_away (tramp_addr + 0x0a) (le_bytes 4 magic) _ a (omega (arith, p))
        ∙ write_away (tramp_addr + 0x06) (le_bytes 4 mbi) _ a (omega (arith, p))
        ∙ write_away (tramp_addr + 0x02) (le_bytes 4 entry) copied a (omega (arith, p))
        ∙ write_away tramp_addr (read l.size here m) m a
            (omega (arith, p, length-read l.size here m))

    -- What lies in the copied piece is not on the stack.
    read-with_stack :
        (n at : ℕ) → at + n ≤ tramp_addr + l.size → read n at with_stack ≡ read n at with_base
    read-with_stack n at h =
        read-write_away n at (rsp - 8 - 8) (le_bytes 8 (tramp_addr + l.code))
          (write (rsp - 8) (le_bytes 8 0x08) with_base) (inl (omega arith))
        ∙ read-write_away n at (rsp - 8) (le_bytes 8 0x08) with_base (inl (omega arith))

    read-with_base :
        (n at : ℕ)
        → at + n ≤ tramp_addr + (l.gdt_ptr + 2)
        → read n at with_base ≡ read n at with_slots
    read-with_base n at h =
        read-write_away n at (tramp_addr + (l.gdt_ptr + 2)) (le_bytes 8 (tramp_addr + l.gdt))
          with_slots (inl h)

    read_slot :
        (n at : ℕ) → at + n ≤ tramp_addr + 0x0e → read n at with_stack ≡ read n at with_slots
    read_slot n at h = read-with_stack n at (omega arith) ∙ read-with_base n at (omega arith)

    pub magic_slot : from_le (read 4 (tramp_addr + 0x0a) with_stack) ≡ magic % 2 ^ 32
    magic_slot =
        ap from_le (
          read_slot 4 (tramp_addr + 0x0a) (omega arith)
          ∙ read-write (tramp_addr + 0x0a) (le_bytes 4 magic) _)
        ∙ from_le-le_bytes4 magic

    pub mbi_slot : from_le (read 4 (tramp_addr + 0x06) with_stack) ≡ mbi % 2 ^ 32
    mbi_slot =
        ap from_le (
          read_slot 4 (tramp_addr + 0x06) (omega arith)
          ∙ read-write_away 4 (tramp_addr + 0x06) (tramp_addr + 0x0a) (le_bytes 4 magic) _
              (inl (omega arith))
          ∙ read-write (tramp_addr + 0x06) (le_bytes 4 mbi) _)
        ∙ from_le-le_bytes4 mbi

    pub entry_slot : from_le (read 4 (tramp_addr + 0x02) with_stack) ≡ entry % 2 ^ 32
    entry_slot =
        ap from_le (
          read_slot 4 (tramp_addr + 0x02) (omega arith)
          ∙ read-write_away 4 (tramp_addr + 0x02) (tramp_addr + 0x0a) (le_bytes 4 magic) _
              (inl (omega arith))
          ∙ read-write_away 4 (tramp_addr + 0x02) (tramp_addr + 0x06) (le_bytes 4 mbi) _
              (inl (omega arith))
          ∙ read-write (tramp_addr + 0x02) (le_bytes 4 entry) _)
        ∙ from_le-le_bytes4 entry

    -- Bytes of the piece behind the slots are as they were loaded.
    loaded_byte : (o : ℕ) → 0x0e ≤ o → o < l.size → with_slots (tramp_addr + o) ≡ m (here + o)
    loaded_byte o lo hi =
        write_away (tramp_addr + 0x0a) (le_bytes 4 magic) _ (tramp_addr + o) (inr (omega arith))
        ∙ write_away (tramp_addr + 0x06) (le_bytes 4 mbi) _ (tramp_addr + o) (inr (omega arith))
        ∙ write_away (tramp_addr + 0x02) (le_bytes 4 entry) copied (tramp_addr + o)
            (inr (omega arith))
        ∙ write_inside tramp_addr (read l.size here m) m o
        ∙ get_or-read l.size here m o (m (tramp_addr + o)) hi

    loaded_bytes :
        (o : ℕ) (bs : List ℕ)
        → 0x0e ≤ o
        → o + length bs ≤ l.size
        → ((i : ℕ) → i < length bs → m (here + (o + i)) ≡ get_or bs i 0)
        → read (length bs) (tramp_addr + o) with_slots ≡ bs
    loaded_bytes o bs lo hi h = read_is (tramp_addr + o) bs with_slots (λ i d.
        let there : tramp_addr + o + i ≡ tramp_addr + (o + i) = omega arith in
        ap with_slots there ∙ loaded_byte (o + i) (omega arith) (omega arith) ∙ h i d)

    pub descriptor_there :
        (o : ℕ) (bs : List ℕ)
        → length bs ≡ 8
        → l.gdt ≤ o
        → o + 8 ≤ l.gdt_ptr
        → ((i : ℕ) → i < length bs → m (here + (o + i)) ≡ get_or bs i 0)
        → read (length bs) (tramp_addr + o) with_stack ≡ bs
    descriptor_there o bs eight lo hi h =
        read-with_stack (length bs) (tramp_addr + o) (omega arith)
        ∙ read-with_base (length bs) (tramp_addr + o) (omega arith)
        ∙ loaded_bytes o bs (omega arith) (omega arith) h

    pub limit_there :
        ((i : ℕ) → i < 2 → m (here + (l.gdt_ptr + i)) ≡ get_or (le_bytes 2 23) i 0)
        → from_le (read 2 (tramp_addr + l.gdt_ptr) with_base) ≡ 23
    limit_there h = ap from_le (
        read-with_base 2 (tramp_addr + l.gdt_ptr) (omega arith)
        ∙ loaded_bytes l.gdt_ptr (le_bytes 2 23) (omega arith) (omega arith) h)

    pub base_there :
        tramp_addr + l.gdt < 2 ^ 64
        → from_le (read 8 (tramp_addr + l.gdt_ptr + 2) with_base) ≡ tramp_addr + l.gdt
    base_there h =
        let there : tramp_addr + l.gdt_ptr + 2 ≡ tramp_addr + (l.gdt_ptr + 2) = omega arith in
        let small : (tramp_addr + l.gdt) % 2 ^ 64 ≡ tramp_addr + l.gdt = omega arith in
        ap (λ a. from_le (read 8 a with_base)) there
        ∙ ap from_le
            (read-write (tramp_addr + (l.gdt_ptr + 2)) (le_bytes 8 (tramp_addr + l.gdt)) with_slots)
        ∙ from_le-le_bytes8 (tramp_addr + l.gdt)
        ∙ small
