-- ===== src/Boot/Machine.antt =====
-- src/main.rs: the jump into a kernel, on the machine of the assembly that makes it. `address` is
-- what the builder of the kernel's information returned.
use bang.Common.{
  ℕ, ◌+◌, ◌≤◌, ◌<◌, ◌⊎◌, ◌%◌, ◌^◌, ◌≡◌, refl, subst, ◌∙◌, arith, Memory, List, Option, false,
}
use bang.Boot.{
  Info, mb1_info, mb2_info, no_info, Jump, trampoline, handoff, mb1_boot_magic, mb2_boot_magic,
  enter,
}
use bang.Boot.Handoff.{IsEntered, as_mb1, as_mb2, as_elf32, as_elf64, enter-IsEntered}
use bang.Elf.{KernelInfo, word}
use bang.Elf.Detect.Laws.{HasVersion}
use bang.Elf.Kernel.{ok, load_kernel}
use bang.Elf.Segment.{Loader}
use bang.Trampoline.{
  Cpu, Layout, tramp_addr, rcx, rdx, rdi, rsi, rsp, r8, set, boot_jump_to_kernel, boot_handoff_64,
}
use bang.Trampoline.Left.{IsPlaced}
use bang.Trampoline.Entered.{IsProtected, boot_jump_to_kernel-IsProtected}

-- The arguments are put in registers, and the assembly is called.
unfoldable pub perform : Layout → ℕ → (Info → ℕ) → Jump → Cpu → Cpu
unfolding boot_jump_to_kernel boot_handoff_64
perform l here address (trampoline entry info magic) c =
    boot_jump_to_kernel l here (set r8 magic (set rdx (address info) (set rcx entry c)))
perform l here address (handoff entry info) c =
    boot_handoff_64 (set rdx (address info) (set rcx entry c))

-- How a kernel starts: in protected mode with its Multiboot version's magic number, or in long mode
-- with the loader's own and no information.
pub data IsStarted (buf : List ℕ) (k : KernelInfo) (address : Info → ℕ) (l : Layout)
    (before c : Cpu) : Type 0 where
  as_multiboot1 :
      HasVersion buf 1
      → IsProtected l before.memory
          (before.regs rsp)
          (k.entry_point % 2 ^ 32)
          (address mb1_info % 2 ^ 32)
          mb1_boot_magic
          c
      → IsStarted buf k address l before c
  as_multiboot2 :
      HasVersion buf 2
      → IsProtected l before.memory
          (before.regs rsp)
          (k.entry_point % 2 ^ 32)
          (address mb2_info % 2 ^ 32)
          mb2_boot_magic
          c
      → IsStarted buf k address l before c
  as_plain32 :
      HasVersion buf 0
      → word 1 buf 4 ≡ 1
      → IsProtected l before.memory
          (before.regs rsp)
          (k.entry_point % 2 ^ 32)
          (address mb2_info % 2 ^ 32)
          mb2_boot_magic
          c
      → IsStarted buf k address l before c
  as_plain64 :
      HasVersion buf 0
      → word 1 buf 4 ≡ 2
      → c.regs rdi ≡ 0x4241_4e47
      → c.regs rsi ≡ address no_info
      → c.next ≡ k.entry_point
      → c.interrupts ≡ false
      → c.memory ≡ before.memory
      → IsStarted buf k address l before c

-- The machine as it is when the assembly is called, with memory as `main` has left it.
abbrev pub at_call : Cpu → Memory → Cpu
at_call c m = record c { memory = m }

-- The trampoline is still placed when the bytes of its piece have been kept.
pub IsPlaced-keeps :
    (l : Layout) (here : ℕ) (c : Cpu) (m m' : Memory)
    → ((a : ℕ) → here ≤ a → a < here + l.size → m' a ≡ m a)
    → IsPlaced l here (at_call c m)
    → IsPlaced l here (at_call c m')
IsPlaced-keeps l here c m m' h p =
    let inside : (o : ℕ) → o < l.size → m' (here + o) ≡ m (here + o) =
      λ o lt. h (here + o) (omega arith) (omega arith) in
    record {
      slots = p.slots;
      table = p.table;
      fits = p.fits;
      in_code = p.in_code;
      above = p.above;
      below = p.below;
      stack = p.stack;
      code_bytes =
          λ i d. inside (l.gdt + 8 + i) (omega (arith, p.table, p.fits)) ∙ p.code_bytes i d;
      data_bytes =
          λ i d. inside (l.gdt + 16 + i) (omega (arith, p.table, p.fits)) ∙ p.data_bytes i d;
      limit_bytes = λ i d. inside (l.gdt_ptr + i) (omega (arith, p.fits)) ∙ p.limit_bytes i d;
      sound = p.sound;
    }

module _ (l : Layout) (here : ℕ) (c : Cpu) (p : IsPlaced l here c) where
  called : (entry info magic : ℕ) → IsPlaced l here (set r8 magic (set rdx info (set rcx entry c)))
  called entry info magic = record {
    slots = p.slots;
    table = p.table;
    fits = p.fits;
    in_code = p.in_code;
    above = p.above;
    below = p.below;
    stack = p.stack;
    code_bytes = p.code_bytes;
    data_bytes = p.data_bytes;
    limit_bytes = p.limit_bytes;
    sound = p.sound;
  }

  -- However a kernel is entered, memory is as it was outside the trampoline's copy and the stack.
  pub perform-memory :
      (address : Info → ℕ) (j : Jump) (a : ℕ)
      → (a < tramp_addr) ⊎ (tramp_addr + l.size ≤ a)
      → (a + 16 < c.regs rsp) ⊎ (c.regs rsp ≤ a)
      → (perform l here address j c).memory a ≡ c.memory a
  unfolding perform boot_handoff_64
  perform-memory address (trampoline entry info magic) a outside off_stack =
      (boot_jump_to_kernel-IsProtected l here
          (set r8 magic (set rdx (address info) (set rcx entry c)))
          (called entry (address info) magic)).memory
        a outside off_stack
  perform-memory address (handoff entry info) a outside off_stack = refl

  perform-IsProtected :
      (address : Info → ℕ) (info : Info) (entry magic : ℕ)
      → magic % 2 ^ 32 ≡ magic
      → IsProtected l c.memory
          (c.regs rsp)
          (entry % 2 ^ 32)
          (address info % 2 ^ 32)
          magic
          (perform l here address (trampoline (entry % 2 ^ 32) info magic) c)
  unfolding perform
  perform-IsProtected address info entry magic h =
      let after =
        boot_jump_to_kernel l here
          (set r8 magic (set rdx (address info) (set rcx (entry % 2 ^ 32) c))) in
      let entered =
        boot_jump_to_kernel-IsProtected l here
          (set r8 magic (set rdx (address info) (set rcx (entry % 2 ^ 32) c)))
          (called (entry % 2 ^ 32) (address info) magic) in
      let twice : entry % 2 ^ 32 % 2 ^ 32 ≡ entry % 2 ^ 32 = omega arith in
      subst
        (λ n. IsProtected l c.memory (c.regs rsp) (entry % 2 ^ 32) (address info % 2 ^ 32) n after)
        h
        (subst
          (λ e.
            IsProtected l c.memory (c.regs rsp) e (address info % 2 ^ 32) (magic % 2 ^ 32) after)
          twice entered)

  started :
      (buf : List ℕ) (k : KernelInfo) (address : Info → ℕ) {j : Jump}
      → IsEntered buf k j
      → IsStarted buf k address l c (perform l here address j c)
  unfolding perform boot_handoff_64
  started buf k address (as_mb1 v) =
      as_multiboot1 v (perform-IsProtected address mb1_info k.entry_point mb1_boot_magic refl)
  started buf k address (as_mb2 v) =
      as_multiboot2 v (perform-IsProtected address mb2_info k.entry_point mb2_boot_magic refl)
  started buf k address (as_elf32 v class32) =
      as_plain32 v class32 (perform-IsProtected address mb2_info k.entry_point mb2_boot_magic refl)
  started buf k address (as_elf64 v class64) = as_plain64 v class64 refl refl refl refl refl

  -- Every kernel that `load_kernel` accepts, entered by `main` from a machine where the trampoline,
  -- its tables and the stack are as `IsPlaced` says: with a Multiboot header it starts, without a
  -- fault, at the low 32 bits of its entry point in protected mode with its version's magic number
  -- and the low 32 bits of the address of that version's information; without one, a file of class
  -- 32 starts as for Multiboot 2, and one of class 64 at its entry point with the loader's magic
  -- number and no information. In long mode it finds memory as `main` left it, else as `main` left
  -- it outside the trampoline's copy at 0x1000 and sixteen bytes of the stack.
  pub enter-IsStarted :
      {S : Type 0} (allocate : S → ℕ → ℕ → Option S) (buf : List ℕ) (loader : Loader S)
      (k : KernelInfo) (loader' : Loader S) (address : Info → ℕ)
      → load_kernel allocate buf loader ≡ ok (k, loader')
      → IsStarted buf k address l c (perform l here address (enter k) c)
  enter-IsStarted allocate buf loader k loader' address e =
      started buf k address (enter-IsEntered allocate buf loader k loader' e)
