-- ===== src/Trampoline/Entered.antt =====
-- src/trampoline.rs: the machine as a 32-bit kernel finds it.
use bang.Common.{
  ℕ, ◌+◌, ◌-◌, ◌*◌, ◌/◌, ◌%◌, ◌^◌, ◌<◌, ◌≡◌, refl, sym, subst, ◌⊎◌, ◌≤◌, ap, ◌∙◌, Bool, true, false,
  not, ◌&&◌, ◌||◌, List, Memory, arith, read, from_le, get_or, ltb, ◌==◌, replicate,
}
use bang.Trampoline.{
  Cpu, Layout, Instruction, reached, tramp_addr, rax, rbx, rcx, rdx, rsp, r8, tramp_code, pm32_code,
  boot_jump_to_kernel,
}
use bang.Trampoline.Left.{
  flat_code, flat_data, IsPlaced, c2, stacked, entry, mbi, c2-IsLeft, code_there, data_there,
  code_at, data_at,
}
use bang.Trampoline.Slots.{with_stack-frame, magic_slot, mbi_slot, entry_slot}

-- The state that the Multiboot specifications ask for, at `entry`, with a magic number and the
-- address of the information, and with memory as it was `before`, but where the piece is copied to
-- and for what is pushed at `stack`.
pub record IsProtected (l : Layout) (before : Memory) (stack entry mbi magic : ℕ) (c : Cpu)
    : Type 0 where
  pub sound : c.faulted ≡ false
  pub jumps : c.next ≡ entry
  pub eax : c.regs rax ≡ magic
  pub ebx : c.regs rbx ≡ mbi
  pub protected : c.cr0 % 2 ≡ 1
  pub unpaged : c.cr0 < 2 ^ 31
  pub not_long : c.efer / 2 ^ 8 % 2 ≡ 0
  pub masked : c.interrupts ≡ false
  pub code : c.cs ≡ flat_code
  pub segments : c.segments ≡ replicate 5 flat_data
  pub esp : c.regs rsp ≡ 0x7c00
  pub memory :
      (a : ℕ)
      → (a < tramp_addr) ⊎ (tramp_addr + l.size ≤ a)
      → (a + 16 < stack) ⊎ (stack ≤ a)
      → c.memory a ≡ before a

-- The two stores to CR0 and the one to EFER fault neither.
no_paging : (v : ℕ) → ((v % 2 ^ 31) / 2 ^ 31 % 2 == 0) ≡ true
no_paging v = ground arith

with_protection : (v : ℕ) → (v % 2 ^ 31 + (1 - v % 2 ^ 31 % 2)) % 2 ^ 31 % 2 ≡ 1
with_protection v = omega arith

long_cleared :
    (v : ℕ) → (v / 2 ^ 32 * 2 ^ 32 + (v % 2 ^ 32 - v % 2 ^ 32 / 2 ^ 8 % 2 * 2 ^ 8)) / 2 ^ 8 % 2 ≡ 0
long_cleared v = omega arith

reached-there : (at : ℕ) (code : Instruction) (c : Cpu) → c.next ≡ at → reached at code c ≡ code c
reached-there at code c h = let there : (c.next == at) ≡ true = ground (arith, h) in rw there refl

tramp_code-next : (l : Layout) (c : Cpu) → (tramp_code l c).next ≡ tramp_addr + l.pm32
unfolding tramp_code
tramp_code-next l c = refl

-- What can fault in the 32-bit part, from the flag, the table's limit, the code segment and CR0.
module _ (before : Bool) (limit : ℕ) (cs : List ℕ) (cr0 efer lower : ℕ) where
  abbrev is_wide : Bool
  is_wide = get_or cs 6 0 / 32 % 2 == 1

  abbrev unpaged : ℕ
  unpaged = cr0 % 2 ^ 31

  abbrev protected : ℕ
  protected = (unpaged + (1 - unpaged % 2)) % 2 ^ 31

  abbrev is_paged : ℕ → Bool
  is_paged v = not (v / 2 ^ 31 % 2 == 0)

  abbrev by_cr0 : ℕ → Bool → Bool
  by_cr0 v b = b || (is_wide && not (is_paged v)) || (is_paged v && v % 2 == 0)

  abbrev by_efer : Bool → Bool
  by_efer b =
      b
      || (is_paged unpaged
          && not ((efer / 2 ^ 32 * 2 ^ 32 + lower) / 2 ^ 8 % 2 == efer / 2 ^ 8 % 2))

  abbrev faults : Bool
  faults =
      by_cr0 protected (by_efer (by_cr0 unpaged (before || ltb limit 23)))
      || ltb limit 15
      || ltb limit 23

faults-none : (cr0 efer lower : ℕ) → faults false 23 flat_code cr0 efer lower ≡ false
faults-none cr0 efer lower =
    rw (no_paging cr0, no_paging (cr0 % 2 ^ 31 + (1 - cr0 % 2 ^ 31 % 2))) refl

module _ (l : Layout) (here : ℕ) (c : Cpu) (p : IsPlaced l here c) where
  abbrev left : Cpu
  left = c2 l here c p

  abbrev kernel : Cpu
  kernel = pm32_code (tramp_code l left)

  -- The jumps go where the parts stand.
  boot_jump_to_kernel-kernel : boot_jump_to_kernel l here c ≡ kernel
  unfolding boot_jump_to_kernel
  boot_jump_to_kernel-kernel =
      ap (reached (tramp_addr + l.pm32) pm32_code)
        (reached-there (tramp_addr + l.code) (tramp_code l) left (c2-IsLeft l here c p).next)
      ∙ reached-there (tramp_addr + l.pm32) pm32_code (tramp_code l left) (tramp_code-next l left)

  kernel_sound : kernel.faulted ≡ false
  unfolding tramp_code pm32_code
  kernel_sound =
      let q = c2-IsLeft l here c p in
      let low_bits = left.efer % 2 ^ 32 in
      let lower = low_bits - low_bits / 2 ^ 8 % 2 * 2 ^ 8 in
      let first : kernel.faulted
          ≡ faults left.faulted left.gdt_limit left.cs left.cr0 left.efer lower =
        refl in
      first
      ∙ ap (λ b. faults b left.gdt_limit left.cs left.cr0 left.efer lower) q.faulted
      ∙ ap (λ n. faults false n left.cs left.cr0 left.efer lower) q.gdt_limit
      ∙ ap (λ s. faults false 23 s left.cr0 left.efer lower) q.cs
      ∙ faults-none left.cr0 left.efer lower

  at_stack : (n at : ℕ) → read n at left.memory ≡ read n at (stacked l here c p)
  at_stack n at = ap (read n at) (c2-IsLeft l here c p).memory

  kernel-IsProtected :
      IsProtected l c.memory
        (c.regs rsp)
        (c.regs rcx % 2 ^ 32)
        (c.regs rdx % 2 ^ 32)
        (c.regs r8 % 2 ^ 32)
        kernel
  unfolding tramp_code pm32_code
  kernel-IsProtected =
      let q = c2-IsLeft l here c p in
      let data_first : kernel.segments ≡ replicate 5 (read 8 (left.gdt_base + 16) left.memory) =
        refl in
      let code_first : kernel.cs ≡ read 8 (left.gdt_base + 8) left.memory = refl in
      let jumps_first : kernel.next ≡ from_le (read 4 (tramp_addr + 0x02) left.memory) = refl in
      let eax_first : kernel.regs rax ≡ from_le (read 4 (tramp_addr + 0x0a) left.memory) = refl in
      let ebx_first : kernel.regs rbx ≡ from_le (read 4 (tramp_addr + 0x06) left.memory) = refl in
      let e = entry l here c p in
      let b = mbi l here c p in
      record {
        sound = kernel_sound;
        jumps =
            jumps_first
            ∙ ap from_le (at_stack 4 (tramp_addr + 0x02))
            ∙ entry_slot l here e b (c.regs r8) (c.regs rsp) c.memory p.slots p.table p.fits p.stack
            ∙ omega arith;
        eax =
            eax_first
            ∙ ap from_le (at_stack 4 (tramp_addr + 0x0a))
            ∙ magic_slot l here e b (c.regs r8) (c.regs rsp) c.memory p.slots p.table p.fits
                p.stack;
        ebx =
            ebx_first
            ∙ ap from_le (at_stack 4 (tramp_addr + 0x06))
            ∙ mbi_slot l here e b (c.regs r8) (c.regs rsp) c.memory p.slots p.table p.fits p.stack
            ∙ omega arith;
        protected = with_protection left.cr0;
        unpaged = omega arith;
        not_long = long_cleared left.efer;
        masked = q.interrupts;
        code =
            code_first
            ∙ ap (λ a. read 8 a left.memory) (code_at l here c p)
            ∙ at_stack 8 (tramp_addr + (l.gdt + 8))
            ∙ code_there l here c p;
        segments =
            data_first
            ∙ ap (replicate 5) (
                ap (λ a. read 8 a left.memory) (data_at l here c p)
                ∙ at_stack 8 (tramp_addr + (l.gdt + 16))
                ∙ data_there l here c p);
        esp = refl;
        memory = λ a outside off_stack.
            let stacked_first : kernel.memory a ≡ left.memory a = refl in
            stacked_first
            ∙ ap (λ m. m a) q.memory
            ∙ with_stack-frame l here e b (c.regs r8) (c.regs rsp) c.memory p.slots p.table p.fits
                p.stack a outside off_stack;
      }

  -- Called with an entry point, an address and a magic number in rcx, rdx and r8, where the piece
  -- to copy, its tables and the stack are as `IsPlaced` says, the assembly follows its own jumps
  -- into the copy and ends without a fault at the low 32 bits of the entry point, with those of the
  -- magic number in eax and of the address in ebx, in protected mode without paging, long mode
  -- disabled, interrupts off, and all segments flat; and no byte of memory has changed outside the
  -- copy at 0x1000 and the sixteen bytes pushed on the stack.
  pub boot_jump_to_kernel-IsProtected :
      IsProtected l c.memory
        (c.regs rsp)
        (c.regs rcx % 2 ^ 32)
        (c.regs rdx % 2 ^ 32)
        (c.regs r8 % 2 ^ 32)
        (boot_jump_to_kernel l here c)
  boot_jump_to_kernel-IsProtected =
      subst
        (IsProtected l c.memory (c.regs rsp) (c.regs rcx % 2 ^ 32) (c.regs rdx % 2 ^ 32)
          (c.regs r8 % 2 ^ 32))
        (sym boot_jump_to_kernel-kernel) kernel-IsProtected
