-- ===== src/Trampoline.antt =====
-- src/trampoline.rs and src/handoff.rs: the assembly that enters a kernel, instruction by
-- instruction, on a machine with the registers and the checks that it touches. The bytes that the
-- assembler makes of it are not modelled but for where its labels stand in the copied piece.
pub mod Entered
pub mod Left
mod Machine
pub mod Slots
pub use Machine.*
use bang.Common.{
  ℕ, ◌+◌, ◌-◌, ◌*◌, ◌/◌, ◌%◌, ◌^◌, Bool, true, false, not, ◌&&◌, ◌||◌, List, [], ◌∷◌, Memory, write,
  read, le_bytes, from_le, get_or, ◌==◌, ltb, leb, if◌then◌else◌,
}

-- The offsets of `_tramp_code`, `_pm32`, `_gdt` and `_gdt_ptr` in the copied piece, and its size.
pub record Layout : Type 0 where
  pub code : ℕ
  pub pm32 : ℕ
  pub gdt : ℕ
  pub gdt_ptr : ℕ
  pub size : ℕ

abbrev pub tramp_addr : ℕ
tramp_addr = 0x1000

module _ (l : Layout) (here : ℕ) where
  -- `lea r, [rip + label]`, the address of the label in the copied piece.
  abbrev relocated : Reg → ℕ → List Instruction
  relocated r label = set r (here + label) ∷ sub r r12 ∷ add r tramp_addr ∷ []

  -- The 64-bit part; `here` is `_tramp_start` as it was loaded.
  unfoldable pub copy_blob : Instruction
  copy_blob = run (
      cli
      ∷ mov32 r10 rcx
      ∷ mov32 r11 rdx
      ∷ set rsi here
      ∷ set rcx (here + l.size)
      ∷ sub rcx rsi
      ∷ set rdi tramp_addr
      ∷ rep_movsb
      ∷ store32 (tramp_addr + 0x02) r10
      ∷ store32 (tramp_addr + 0x06) r11
      ∷ store32 (tramp_addr + 0x0a) r8
      ∷ set r12 here
      ∷ [])

  unfoldable pub leave_64 : Instruction
  leave_64 c =
      let based = run (relocated rax l.gdt) c in
      let stored =
        run
          (set rdx (here + (l.gdt_ptr + 2))
            ∷ sub rdx r12
            ∷ add rdx tramp_addr
            ∷ store64 rdx rax
            ∷ [])
          based in
      let listed = lgdt rax (run (relocated rax l.gdt_ptr) stored) in
      run (push 0x08 ∷ push_reg rax ∷ retfq ∷ []) (run (relocated rax l.code) listed)

unfoldable pub tramp_code : Layout → Instruction
tramp_code l = run (
    load_data 0x10
    ∷ from_cr0 rax
    ∷ without_31 rax
    ∷ mov_cr0 rax
    ∷ set rax 0
    ∷ mov_cr3 rax
    ∷ set rcx 0xc000_0080
    ∷ rdmsr
    ∷ without_8 rax
    ∷ wrmsr
    ∷ from_cr0 rax
    ∷ with_0 rax
    ∷ without_31 rax
    ∷ mov_cr0 rax
    ∷ far 0x08 (tramp_addr + l.pm32)
    ∷ [])

unfoldable pub pm32_code : Instruction
pm32_code = run (
    load_data 0x10
    ∷ set rsp 0x7c00
    ∷ load32 rax (tramp_addr + 0x0a)
    ∷ load32 rbx (tramp_addr + 0x06)
    ∷ load32 rcx (tramp_addr + 0x02)
    ∷ jmp rcx
    ∷ [])

-- `boot_jump_to_kernel`, with its arguments in rcx, rdx and r8. Its 32-bit parts run where `retfq` and
-- the far jump go to.
unfoldable pub boot_jump_to_kernel : Layout → ℕ → Instruction
unfolding copy_blob leave_64 tramp_code pm32_code
boot_jump_to_kernel l here c =
    reached (tramp_addr + l.pm32) pm32_code
      (reached (tramp_addr + l.code) (tramp_code l) (leave_64 l here (copy_blob l here c)))

-- `boot_handoff_64`, with its arguments in rcx and rdx.
unfoldable pub boot_handoff_64 : Instruction
boot_handoff_64 = run (cli ∷ set rsp 0x7c00 ∷ set rdi 0x4241_4e47 ∷ mov rsi rdx ∷ jmp rcx ∷ [])
