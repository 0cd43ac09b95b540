-- ===== src/Trampoline/Machine.antt =====
-- src/trampoline.rs and src/handoff.rs: the instructions, on a machine with the registers and the
-- checks that they touch.
use bang.Common.{
  ℕ, ◌+◌, ◌-◌, ◌*◌, ◌/◌, ◌%◌, ◌^◌, Bool, true, false, not, ◌&&◌, ◌||◌, List, [], ◌∷◌, Memory, write,
  read, le_bytes, from_le, get_or, ◌==◌, ltb, if◌then◌else◌,
}

pub data Reg : Type 0 where
  rax rbx rcx rdx rsi rdi rsp r8 r10 r11 r12 : Reg

abbrev pub index : Reg → ℕ
index rax = 0
index rbx = 1
index rcx = 2
index rdx = 3
index rsi = 4
index rdi = 5
index rsp = 6
index r8 = 7
index r10 = 8
index r11 = 9
index r12 = 10

-- The descriptors that the segment registers hold, and what the code touches besides.
pub record Cpu : Type 0 where
  pub regs : Reg → ℕ
  pub memory : Memory
  pub cr0 : ℕ
  pub cr3 : ℕ
  pub efer : ℕ
  pub interrupts : Bool
  pub gdt_base : ℕ
  pub gdt_limit : ℕ
  pub cs : List ℕ
  pub segments : List (List ℕ)
  -- Where the last jump goes, and whether any instruction has faulted.
  pub next : ℕ
  pub faulted : Bool

abbrev pub Instruction : Type 0
Instruction = Cpu → Cpu

abbrev pub run : List Instruction → Cpu → Cpu
run [] c = c
run (i ∷ is) c = run is (i c)

abbrev pub set : Reg → ℕ → Instruction
set r v c = record c { regs = λ q. if index q == index r then v else c.regs q }

abbrev pub cli : Instruction
cli c = record c { interrupts = false }

abbrev pub mov : Reg → Reg → Instruction
mov r q c = set r (c.regs q) c

abbrev pub mov32 : Reg → Reg → Instruction
mov32 r q c = set r (c.regs q % 2 ^ 32) c

abbrev pub sub : Reg → Reg → Instruction
sub r q c = set r ((c.regs r + 2 ^ 64 - c.regs q) % 2 ^ 64) c

abbrev pub add : Reg → ℕ → Instruction
add r n c = set r ((c.regs r + n) % 2 ^ 64) c

abbrev pub rep_movsb : Instruction
rep_movsb c =
    let n = c.regs rcx in
    set rcx 0 (
      set rsi (c.regs rsi + n) (
        set rdi (c.regs rdi + n)
          (record c { memory = write (c.regs rdi) (read n (c.regs rsi) c.memory) c.memory })))

abbrev pub store32 : ℕ → Reg → Instruction
store32 at r c = record c { memory = write at (le_bytes 4 (c.regs r)) c.memory }

abbrev pub store64 : Reg → Reg → Instruction
store64 at r c = record c { memory = write (c.regs at) (le_bytes 8 (c.regs r)) c.memory }

abbrev pub load32 : Reg → ℕ → Instruction
load32 r at c = set r (from_le (read 4 at c.memory)) c

abbrev pub lgdt : Reg → Instruction
lgdt r c = record c {
  gdt_limit = from_le (read 2 (c.regs r) c.memory);
  gdt_base = from_le (read 8 (c.regs r + 2) c.memory);
}

abbrev pub push : ℕ → Instruction
push v c =
    let top = c.regs rsp - 8 in
    set rsp top (record c { memory = write top (le_bytes 8 v) c.memory })

abbrev pub push_reg : Reg → Instruction
push_reg r c = push (c.regs r) c

abbrev pub descriptor : ℕ → Cpu → List ℕ
descriptor selector c = read 8 (c.gdt_base + selector) c.memory

-- A transfer to a code segment, which faults beyond the limit of the table.
abbrev pub far : ℕ → ℕ → Instruction
far selector at c = record c {
  cs = descriptor selector c;
  next = at;
  faulted = c.faulted || ltb c.gdt_limit (selector + 7);
}

abbrev pub retfq : Instruction
retfq c =
    let top = c.regs rsp in
    far (from_le (read 8 (top + 8) c.memory)) (from_le (read 8 top c.memory)) (set rsp (top + 16) c)

-- `mov ax, …`, and the same selector in ds, es, fs, gs and ss.
abbrev pub load_data : ℕ → Instruction
load_data selector c =
    let d = descriptor selector c in
    set rax (c.regs rax / 2 ^ 16 * 2 ^ 16 + selector) (record c {
      segments = d ∷ d ∷ d ∷ d ∷ d ∷ [];
      faulted = c.faulted || ltb c.gdt_limit (selector + 7);
    })

-- Whether the code segment is one of 64 bits.
abbrev pub is_64 : Cpu → Bool
is_64 c = get_or c.cs 6 0 / 32 % 2 == 1

-- Paging cannot be left from 64-bit code, nor be on without protection.
abbrev pub mov_cr0 : Reg → Instruction
mov_cr0 r c =
    let v = c.regs r in
    let paging = not (v / 2 ^ 31 % 2 == 0) in
    record c { cr0 = v; faulted = c.faulted || (is_64 c && not paging) || (paging && v % 2 == 0) }

abbrev pub from_cr0 : Reg → Instruction
from_cr0 r c = set r c.cr0 c

abbrev pub mov_cr3 : Reg → Instruction
mov_cr3 r c = record c { cr3 = c.regs r }

-- `and r, 0x7FFFFFFF`, `and r, 0xFFFFFEFF`, `or r, 1`, on a register of 32 bits.
abbrev pub without_31 : Reg → Instruction
without_31 r c = set r (c.regs r % 2 ^ 31) c

abbrev pub without_8 : Reg → Instruction
without_8 r c = let v = c.regs r in set r (v - v / 2 ^ 8 % 2 * 2 ^ 8) c

abbrev pub with_0 : Reg → Instruction
with_0 r c = let v = c.regs r in set r (v + (1 - v % 2)) c

-- What is not followed, a register or an address that the code does not name, counts as a fault.
abbrev pub fault : Instruction
fault c = record c { faulted = true }

-- Whether ecx holds the number of EFER.
abbrev pub is_efer : Cpu → Bool
is_efer c = c.regs rcx % 2 ^ 32 == 0xc000_0080

abbrev pub rdmsr : Instruction
rdmsr c = if is_efer c then set rdx (c.efer / 2 ^ 32) (set rax (c.efer % 2 ^ 32) c) else fault c

-- The enable bit of long mode cannot change while paging is on.
abbrev pub wrmsr : Instruction
wrmsr c =
    let v = c.regs rdx * 2 ^ 32 + c.regs rax in
    let written = record c {
      efer = v;
      faulted =
          c.faulted || (not (c.cr0 / 2 ^ 31 % 2 == 0) && not (v / 2 ^ 8 % 2 == c.efer / 2 ^ 8 % 2));
    } in
    if is_efer c then written else fault c

abbrev pub jmp : Reg → Instruction
jmp r c = record c { next = c.regs r }

-- The code at an address, which runs if the last jump went there.
abbrev pub reached : ℕ → Instruction → Instruction
reached at code c = if c.next == at then code c else fault c
