-- ===== src/Elf/Kernel.antt =====
-- src/elf.rs: `load_kernel`, from the bytes that were read. Elf/Kernel/File.antt has the reading.
pub mod Laws
pub mod File
pub mod Image
pub mod Owned
use bang.Common.{
  ℕ, zero, suc, ◌+◌, ◌*◌, ◌≤◌, ◌^◌, Bool, true, false, not, ◌&&◌, ◌||◌, Option, none, some, List,
  ltb, leb, ◌==◌, if◌then◌else◌, length,
}
use bang.Elf.{BootMode, protected32, long64, KernelInfo, word}
use bang.Elf.Detect.{detect_multiboot_version}
use bang.Elf.Segment.{Loader, load_segment}

-- The messages of the `expect`s, of the assertions and of the last `panic!`; `not_found` stands for
-- every `expect` up to the file's size.
pub data Panic : Type 0 where
  not_found unreadable short_read : Panic
  not_elf elf32_truncated not_i386 elf64_truncated not_x86_64 malformed_segment : Panic
  unsupported_class : ℕ → Panic
  -- a slice out of range, or a loop that does not end
  fault : Panic

pub data Load (A : Type 0) : Type 0 where
  ok : A → Load A
  panic : Panic → Load A

infixl 5 ◌>>=◌
abbrev pub ◌>>=◌ : {A B : Type 0} → Load A → (A → Load B) → Load B
ok a >>= f = f a
panic p >>= f = panic p

abbrev pub assert : {A : Type 0} → Bool → Panic → Load A → Load A
assert true p k = k
assert false p k = panic p

-- The fields of a program header that are used.
pub record Phdr : Type 0 where
  pub p_type : ℕ
  pub p_offset : ℕ
  pub p_paddr : ℕ
  pub p_filesz : ℕ
  pub p_memsz : ℕ

-- The two layouts of headers: the sizes, and the fields at their offsets in the packed structs.
pub record Layout : Type 0 where
  pub ehdr_size : ℕ
  pub phdr_size : ℕ
  pub machine : ℕ
  pub entry : List ℕ → ℕ
  pub phoff : List ℕ → ℕ
  pub phnum : List ℕ → ℕ
  pub phdr : List ℕ → ℕ → Phdr
  pub truncated : Panic
  pub wrong_machine : Panic

abbrev pub elf32 : Layout
elf32 = record {
  ehdr_size = 52;
  phdr_size = 32;
  machine = 3;
  entry = λ buf. word 4 buf 24;
  phoff = λ buf. word 4 buf 28;
  phnum = λ buf. word 2 buf 44;
  phdr = λ buf off. record {
    p_type = word 4 buf off;
    p_offset = word 4 buf (off + 4);
    p_paddr = word 4 buf (off + 12);
    p_filesz = word 4 buf (off + 16);
    p_memsz = word 4 buf (off + 20);
  };
  truncated = elf32_truncated;
  wrong_machine = not_i386;
}

abbrev pub elf64 : Layout
elf64 = record {
  ehdr_size = 64;
  phdr_size = 56;
  machine = 62;
  entry = λ buf. word 8 buf 24;
  phoff = λ buf. word 8 buf 32;
  phnum = λ buf. word 2 buf 56;
  phdr = λ buf off. record {
    p_type = word 4 buf off;
    p_offset = word 8 buf (off + 8);
    p_paddr = word 8 buf (off + 24);
    p_filesz = word 8 buf (off + 32);
    p_memsz = word 8 buf (off + 40);
  };
  truncated = elf64_truncated;
  wrong_machine = not_x86_64;
}

-- `off + size_of::<Phdr>()`, checked, is past the end of the file.
abbrev pub past_end : List ℕ → ℕ → ℕ → Bool
past_end buf off size = leb (2 ^ 64) (off + size) || ltb (length buf) (off + size)

abbrev pub is_elf : List ℕ → Bool
is_elf buf =
    leb 16 (length buf)
    && (word 1 buf 0 == 0x7f
        && (word 1 buf 1 == b'E' && (word 1 buf 2 == b'L' && word 1 buf 3 == b'F')))

abbrev pub boot_mode_of : ℕ → ℕ → BootMode
boot_mode_of mb_version elf_class =
    if ltb 0 mb_version then protected32 else if elf_class == 2 then long64 else protected32

module _ {S : Type 0} (allocate : S → ℕ → ℕ → Option S) where
  abbrev pub segment_result : Option (Bool × Loader S) → Load (Loader S)
  segment_result none = panic fault
  segment_result (some (done, l)) = if done then ok l else panic malformed_segment

  -- `for i in 0..phnum`, with `left` rounds to go; a header past the end of the file ends the loop.
  unfoldable pub load_segments : Layout → List ℕ → ℕ → ℕ → Loader S → Load (Loader S)
  unfolding segment_result
  load_segments h buf zero i l = ok l
  load_segments h buf (suc left) i l =
      let off = h.phoff buf + i * h.phdr_size in
      let ph = h.phdr buf off in
      let next = (do
        l' ←
            if not (ph.p_type == 1)
            then ok l
            else segment_result
                (load_segment allocate ph.p_paddr ph.p_memsz buf ph.p_offset ph.p_filesz l)
        load_segments h buf left (i + 1) l') in
      if leb (2 ^ 64) off || past_end buf off h.phdr_size then ok l else next

  -- One class of file: the header's checks, then its segments.
  unfoldable pub load_class : Layout → List ℕ → Loader S → Load (ℕ × Loader S)
  load_class h buf l = assert (leb h.ehdr_size (length buf)) h.truncated (
      assert (word 2 buf 16 == 2 && word 2 buf 18 == h.machine) h.wrong_machine
        (do l' ← load_segments h buf (h.phnum buf) 0 l; ok (h.entry buf, l')))

  unfoldable pub load_kernel : List ℕ → Loader S → Load (KernelInfo × Loader S)
  load_kernel buf l =
      let elf_class = word 1 buf 4 in
      let by_class =
        if elf_class == 1
        then load_class elf32 buf l
        else if elf_class == 2
        then load_class elf64 buf l
        else panic (unsupported_class elf_class) in
      assert (is_elf buf) not_elf (elim (detect_multiboot_version buf) [
        | none ↦ panic fault
        | some mb_version ↦ do
          (entry, l') ← by_class
          ok (
            record {
              entry_point = entry;
              mb_version = mb_version;
              boot_mode = boot_mode_of mb_version elf_class;
            },
            l',
          )
      ])
