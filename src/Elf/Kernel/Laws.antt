-- ===== src/Elf/Kernel/Laws.antt =====
-- src/elf.rs: what is known of a file that `load_kernel` accepts.
use bang.Common.{
  ℕ, ◌≤◌, ◌≡◌, ◌↔◌, refl, ◌⊎◌, inl, inr, Bool, true, false, ◌&&◌, Option, List, arith, leb, ◌==◌,
  if◌then◌else◌, length, Bool-cases,
}
use bang.Elf.{long64, KernelInfo, word}
use bang.Elf.Detect.Laws.{HasVersion, detect_multiboot_version-HasVersion}
use bang.Elf.Segment.{Loader}
use bang.Elf.Kernel.{
  Panic, Load, ok, panic, unsupported_class, Layout, elf32, elf64, is_elf, boot_mode_of, load_class,
  load_kernel, load_segments, ◌>>=◌, assert,
}

-- The headers that the class of the file asks for.
pub record IsExecutable (h : Layout) (buf : List ℕ) : Type 0 where
  pub header : h.ehdr_size ≤ length buf
  pub executable : word 2 buf 16 ≡ 2
  pub machine : word 2 buf 18 ≡ h.machine

-- An ELF file of class 32 for i386 or of class 64 for x86-64, with its entry point, its Multiboot
-- version, and long mode exactly for class 64 with no Multiboot header.
pub record IsKernel (buf : List ℕ) (k : KernelInfo) : Type 0 where
  pub elf : is_elf buf ≡ true
  pub version : HasVersion buf k.mb_version
  pub headers :
      ((word 1 buf 4 ≡ 1) × IsExecutable elf32 buf × (k.entry_point ≡ word 4 buf 24))
      ⊎ ((word 1 buf 4 ≡ 2) × IsExecutable elf64 buf × (k.entry_point ≡ word 8 buf 24))
  pub mode : (k.boot_mode ≡ long64) ↔ ((word 1 buf 4 ≡ 2) × (k.mb_version ≡ 0))

pub assert-eq-ok :
    {A : Type 0} (b : Bool) (p : Panic) (k : Load A) {a : A}
    → assert b p k ≡ ok a
    → (b ≡ true) × (k ≡ ok a)
assert-eq-ok true p k e = (refl, e)
assert-eq-ok false p k e = cc

pub bind-eq-ok :
    {A B : Type 0} (m : Load A) (f : A → Load B) {b : B}
    → (m >>= f) ≡ ok b
    → (a : A) × (m ≡ ok a) × (f a ≡ ok b)
bind-eq-ok (ok a) f e = (a, refl, e)
bind-eq-ok (panic p) f e = cc

module _ {S : Type 0} (allocate : S → ℕ → ℕ → Option S) (buf : List ℕ) where
  load_class-IsExecutable :
      (h : Layout) (l : Loader S) (entry : ℕ) (l' : Loader S)
      → load_class allocate h buf l ≡ ok (entry, l')
      → IsExecutable h buf × (entry ≡ h.entry buf)
  unfolding load_class
  load_class-IsExecutable h l entry l' e =
      let (fits, e1) = assert-eq-ok (leb h.ehdr_size (length buf)) h.truncated _ e in
      let (kind, e2) =
        assert-eq-ok (word 2 buf 16 == 2 && word 2 buf 18 == h.machine) h.wrong_machine _ e1 in
      let (last, e3, e4) = bind-eq-ok (load_segments allocate h buf (h.phnum buf) 0 l) _ e2 in
      (record { header = ground arith; executable = ground arith; machine = ground arith }, cc)

  abbrev pub by_class : Loader S → Load (ℕ × Loader S)
  by_class l =
      if word 1 buf 4 == 1
      then load_class allocate elf32 buf l
      else if word 1 buf 4 == 2
      then load_class allocate elf64 buf l
      else panic (unsupported_class (word 1 buf 4))

  by_class-headers :
      (l : Loader S) (entry : ℕ) (l' : Loader S)
      → by_class l ≡ ok (entry, l')
      → ((word 1 buf 4 ≡ 1) × IsExecutable elf32 buf × (entry ≡ word 4 buf 24))
        ⊎ ((word 1 buf 4 ≡ 2) × IsExecutable elf64 buf × (entry ≡ word 8 buf 24))
  by_class-headers l entry l' e = elim (Bool-cases (word 1 buf 4 == 1)) [
    | inl one ↦
        let (x, q) = load_class-IsExecutable elf32 l entry l' (rw one at e) in
        inl (ground arith, x, q)
    | inr not_one ↦ elim (Bool-cases (word 1 buf 4 == 2)) [
      | inl two ↦
          let (x, q) = load_class-IsExecutable elf64 l entry l' (rw (not_one, two) at e) in
          inr (ground arith, x, q)
      | inr not_two ↦ cc (rw (not_one, not_two) at e)
    ]
  ]

  boot_mode_iff :
      (version : ℕ)
      → (boot_mode_of version (word 1 buf 4) ≡ long64) ↔ ((word 1 buf 4 ≡ 2) × (version ≡ 0))
  boot_mode_iff version = ground arith

  -- Whatever kernel is loaded, from any state and with any firmware: the file begins with the ELF
  -- magic, its class is 32 with an i386 executable or 64 with an x86-64 executable, whose whole
  -- header is in the file; the entry point is the header's; the version is the file's Multiboot
  -- version; and it is entered in long mode exactly if it is of class 64 with no Multiboot header.
  pub load_kernel-IsKernel :
      (l : Loader S) (k : KernelInfo) (l' : Loader S)
      → load_kernel allocate buf l ≡ ok (k, l')
      → IsKernel buf k
  unfolding load_kernel
  load_kernel-IsKernel l k l' e =
      let (version, detected, v) = detect_multiboot_version-HasVersion buf in
      let (elf, e1) = assert-eq-ok (is_elf buf) _ _ e in
      let ((entry, last), e2, e3) = bind-eq-ok (by_class l) _ (rw detected at e1) in
      let built : k ≡ record {
        entry_point = entry;
        mb_version = version;
        boot_mode = boot_mode_of version (word 1 buf 4);
      } =
        cc e3 in
      rw built (record {
        elf = elf;
        version = v;
        headers = by_class-headers l entry last e2;
        mode = boot_mode_iff version;
      })
