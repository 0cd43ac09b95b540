-- ===== src/Elf/Kernel/File.antt =====
-- src/elf.rs, `load_kernel`, from the file that it opens: the size and a handle, if the file opens
-- and is a regular one.
use bang.Common.{
  true, ℕ, ◌≡◌, refl, sym, ap, ◌∙◌, inl, inr, Option, none, some, List, ◌++◌, arith, length, ◌==◌,
  Bool-cases,
}
use bang.Elf.{KernelInfo}
use bang.Elf.Kernel.{Load, ok, panic, not_found, unreadable, short_read, ◌>>=◌, assert, load_kernel}
use bang.Elf.Kernel.Laws.{IsKernel, load_kernel-IsKernel}
use bang.Elf.Segment.{Loader}
use bang.Uefi.{FileReader}

abbrev pub of_length : ℕ → Option (List ℕ) → Load (List ℕ)
of_length size none = panic unreadable
of_length size (some buf) = assert (length buf == size) short_read (ok buf)

module _ {F : Type 0} (read_some : F → ℕ → Option (List ℕ) × F) where
  -- One read of the whole file.
  unfoldable pub read_kernel : Option (ℕ × F) → Load (List ℕ)
  read_kernel none = panic not_found
  read_kernel (some (size, f)) = of_length size (read_some f size).0

  unfoldable pub load_opened :
      {S : Type 0}
      → (S → ℕ → ℕ → Option S)
      → Option (ℕ × F)
      → Loader S
      → Load (KernelInfo × Loader S)
  unfolding read_kernel load_kernel
  load_opened allocate opened l = read_kernel opened >>= λ buf. load_kernel allocate buf l

of_length-ok :
    (size : ℕ) (answer : Option (List ℕ)) (buf : List ℕ)
    → of_length size answer ≡ ok buf
    → (answer ≡ some buf) × (length buf ≡ size)
of_length-ok size none buf e = cc
of_length-ok size (some bs) buf e = elim (Bool-cases (length bs == size)) [
  | inl exact ↦
      let same : bs ≡ buf = cc (rw exact at e) in
      let sized : length bs ≡ size = ground (arith, exact) in
      (ap some same, sym (ap length same) ∙ sized)
  | inr short ↦ cc (rw short at e)
]

-- A kernel as it is loaded from a file: the bytes that were read are as many as the file's size
-- says, they are the front of the file, and they are an executable that is entered as `IsKernel`
-- says.
pub record IsLoadedFrom {S : Type 0} (reader : FileReader) (size : ℕ) (f : reader.F)
    (allocate : S → ℕ → ℕ → Option S) (l : Loader S) (k : KernelInfo) (l' : Loader S) : Type 0 where
  pub buf : List ℕ
  pub rest : List ℕ
  pub front : reader.left f ≡ buf ++ rest
  pub sized : length buf ≡ size
  pub loads : load_kernel allocate buf l ≡ ok (k, l')
  pub kernel : IsKernel buf k

module _ {S : Type 0} (reader : FileReader) (allocate : S → ℕ → ℕ → Option S) where
  bound :
      (r : Load (List ℕ)) (l : Loader S) (kl : KernelInfo × Loader S)
      → (r >>= λ buf. load_kernel allocate buf l) ≡ ok kl
      → (buf : List ℕ) × (r ≡ ok buf) × (load_kernel allocate buf l ≡ ok kl)
  bound (ok buf) l kl e = (buf, refl, e)
  bound (panic p) l kl e = absurd cc

  -- A kernel that `load_kernel` returns was read whole, in one read of as many bytes as the file
  -- has by its own account; a file that does not open or is read short is a panic.
  pub load_opened-IsLoadedFrom :
      (opened : Option (ℕ × reader.F)) (l : Loader S) (k : KernelInfo) (l' : Loader S)
      → load_opened reader.read_some allocate opened l ≡ ok (k, l')
      → (size : ℕ) × (f : reader.F) × (opened ≡ some (size, f))
        × IsLoadedFrom reader size f allocate l k l'
  unfolding load_opened read_kernel
  load_opened-IsLoadedFrom none l k l' e = absurd cc
  load_opened-IsLoadedFrom (some (size, f)) l k l' e =
      let (buf, given, loads) = bound (of_length size (reader.read_some f size).0) l (k, l') e in
      let (got, sized) = of_length-ok size (reader.read_some f size).0 buf given in
      let f' = (reader.read_some f size).1 in
      let (front, fits) = reader.gives_next f f' size buf (ap (λ o. (o, f')) got) in
      (
        size,
        f,
        refl,
        record {
          buf = buf;
          rest = reader.left f';
          front = front;
          sized = sized;
          loads = loads;
          kernel = load_kernel-IsKernel allocate buf l k l' loads;
        },
      )

-- A file that one read gives whole is loaded as its bytes are.
pub load_opened-whole :
    {S F : Type 0} (read_some : F → ℕ → Option (List ℕ) × F) (allocate : S → ℕ → ℕ → Option S)
    (opened : Option (ℕ × F)) (size : ℕ) (f : F) (buf : List ℕ) (l : Loader S)
    → opened ≡ some (size, f)
    → (read_some f size).0 ≡ some buf
    → length buf ≡ size
    → load_opened read_some allocate opened l ≡ load_kernel allocate buf l
unfolding load_opened read_kernel
load_opened-whole read_some allocate opened size f buf l opens got sized =
    let exact : (length buf == size) ≡ true = ground (arith, sized) in
    let assertion : of_length size (some buf) ≡ ok buf = rw exact refl in
    ap (λ o. read_kernel read_some o >>= λ bs. load_kernel allocate bs l) opens
    ∙ ap (λ o. of_length size o >>= λ bs. load_kernel allocate bs l) got
    ∙ ap (λ r. r >>= λ bs. load_kernel allocate bs l) assertion
