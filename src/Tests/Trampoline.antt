-- ===== src/Tests/Trampoline.antt =====
-- A run of the trampoline, with its tables where an assembler could have put them.
use bang.Common.{
  ℕ, ◌+◌, ◌≡◌, refl, ap, ◌∙◌, inr, true, false, [], arith, Memory, write, write_away, write_inside,
  get_or_default, le_bytes,
}
use bang.Boot.{Info, enter, mb1_info, mb2_info, no_info}
use bang.Boot.Machine.{perform, IsStarted, enter-IsStarted}
use bang.Trampoline.{Cpu, Layout, Reg, rcx, rdx, r8, rsp, boot_jump_to_kernel}
use bang.Trampoline.Left.{flat_code, flat_data, IsPlaced}
use bang.Trampoline.Entered.{IsProtected, boot_jump_to_kernel-IsProtected}
use bang.Tests.Elf.{kernel_file, fresh, kernel, loaded, give, load_kernel-kernel_file}

abbrev pub layout : Layout
layout = record { code = 14; pm32 = 100; gdt = 144; gdt_ptr = 168; size = 178 }

abbrev pub here : ℕ
here = 0x30_0000

abbrev limit : Memory
limit = write (here + 168) (le_bytes 2 23) (λ a. 0x90)

abbrev with_data : Memory
with_data = write (here + 160) flat_data limit

abbrev pub piece : Memory
piece = write (here + 152) flat_code with_data

abbrev arguments : Reg → ℕ
arguments rcx = 0x10_0020
arguments rdx = 0x5000
arguments r8 = 0x36d7_6289
arguments rsp = 0x8_0000
arguments r = 0

abbrev pub machine : Cpu
machine = record {
  regs = arguments;
  memory = piece;
  cr0 = 0x8001_0033;
  cr3 = 0x3000;
  efer = 0xd01;
  interrupts = true;
  gdt_base = 0;
  gdt_limit = 0;
  cs = [];
  segments = [];
  next = 0;
  faulted = false;
}

pub machine-IsPlaced : IsPlaced layout here machine
machine-IsPlaced = record {
  slots = omega arith;
  table = omega arith;
  fits = omega arith;
  in_code = (omega arith, omega arith);
  above = omega arith;
  below = omega arith;
  stack = omega arith;
  code_bytes = λ i d.
      let there : here + (144 + 8 + i) ≡ here + 152 + i = omega arith in
      ap piece there
      ∙ write_inside (here + 152) flat_code with_data i
      ∙ get_or_default flat_code i (with_data (here + 152 + i)) 0 d;
  data_bytes = λ i d.
      let there : here + (144 + 16 + i) ≡ here + 160 + i = omega arith in
      ap piece there
      ∙ write_away (here + 152) flat_code with_data (here + 160 + i) (inr (omega arith))
      ∙ write_inside (here + 160) flat_data limit i
      ∙ get_or_default flat_data i (limit (here + 160 + i)) 0 d;
  limit_bytes = λ i d.
      let there : here + (168 + i) ≡ here + 168 + i = omega arith in
      ap piece there
      ∙ write_away (here + 152) flat_code with_data (here + 168 + i) (inr (omega arith))
      ∙ write_away (here + 160) flat_data limit (here + 168 + i) (inr (omega arith))
      ∙ write_inside (here + 168) (le_bytes 2 23) (λ a. 0x90) i
      ∙ get_or_default (le_bytes 2 23) i 0x90 0 d;
  sound = refl;
}

boot_jump_to_kernel-IsProtected_example :
    IsProtected layout machine.memory 0x8_0000 0x10_0020 0x5000 0x36d7_6289
      (boot_jump_to_kernel layout here machine)
boot_jump_to_kernel-IsProtected_example =
    boot_jump_to_kernel-IsProtected layout here machine machine-IsPlaced

abbrev built : Info → ℕ
built mb1_info = 0x6000
built mb2_info = 0x7000
built no_info = 0

enter-IsStarted_example :
    IsStarted kernel_file kernel built layout machine
      (perform layout here built (enter kernel) machine)
enter-IsStarted_example =
    enter-IsStarted layout here machine machine-IsPlaced give kernel_file fresh kernel loaded built
      load_kernel-kernel_file
