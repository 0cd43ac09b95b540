-- ===== src/Multiboot/Mb1/Modules.antt =====
-- src/multiboot.rs, `build_mb1_info`: the modules and the copies of their names.
use bang.Common.{
  ℕ, zero, suc, ◌+◌, ◌-◌, ◌*◌, ◌≤◌, ◌<◌, ◌≡◌, ◌≢◌, refl, ap, ◌∙◌, ◌⊎◌, inl, inr, true, false, List,
  [], ◌∷◌, ◌++◌, arith, Memory, write, read, length, length-take, take, ◌==◌, All, read-write,
  read_congr, write_away, write_cons,
}
use bang.Multiboot.{info_size}
use bang.Multiboot.Mb1.{
  mb1_modules_at, mb1_names_at, mb1_mmap_at, mb1_module_size, mb1_name_max, copy_name,
  mb1_module_bytes, name_at, write_module1, write_modules1,
}
use bang.Multiboot.Mb2.Names.{HasName, infos}
use bang.Multiboot.Mb2.Tags.{Named}

-- The bytes of a string from `at` on, none of them 0, and its terminator.
abbrev pub IsString : Memory → ℕ → List ℕ → Type 0
IsString m at [] = m at ≡ 0
IsString m at (b ∷ bs) = (m at ≡ b) × (b ≢ 0) × IsString m (at + 1) bs

pub IsString-congr :
    (m m' : Memory) (at : ℕ) (bs : List ℕ)
    → ((a : ℕ) → at ≤ a → a ≤ at + length bs → m' a ≡ m a)
    → IsString m at bs
    → IsString m' at bs
IsString-congr m m' at [] h s = h at (omega arith) (omega arith) ∙ s
IsString-congr m m' at (b ∷ bs) h (first, nonzero, rest) = (
  h at (omega arith) (omega arith) ∙ first,
  nonzero,
  IsString-congr m m' (at + 1) bs (λ a lo hi. h a (omega arith) (omega arith)) rest,
)

IsString-read :
    (m : Memory) (at : ℕ) (bs : List ℕ)
    → All (λ b. b ≢ 0) bs
    → read (suc (length bs)) at m ≡ bs ++ 0 ∷ []
    → IsString m at bs
IsString-read m at [] h e = cc
IsString-read m at (b ∷ bs) (first, rest) e = (cc, first, IsString-read m (at + 1) bs rest cc)

-- A string at `to`, followed by zeros, is what is left of a copy; no other byte has changed.
record IsCopied (to : ℕ) (bs : List ℕ) (m m' : Memory) : Type 0 where
  string : m (to + length bs) ≡ 0 → IsString m' to bs
  frame : (a : ℕ) → (a < to) ⊎ (to + length bs ≤ a) → m' a ≡ m a

IsCopied-nil : (to : ℕ) (m : Memory) → IsCopied to [] m m
IsCopied-nil to m = record {
  string = λ z. let there : to + 0 ≡ to = omega arith in rw there at z;
  frame = λ a p. refl;
}

IsCopied-cons :
    (to b : ℕ) (bs : List ℕ) (m m' : Memory)
    → b ≢ 0
    → IsCopied (to + 1) bs (write to (b ∷ []) m) m'
    → IsCopied to (b ∷ bs) m m'
IsCopied-cons to b bs m m' nonzero c = record {
  string = λ z.
      let there : to + 1 + length bs ≡ to + suc (length bs) = omega arith in
      (
        c.frame to (inl (omega arith)) ∙ write_cons to b [] m,
        nonzero,
        c.string
            (write_away to (b ∷ []) m (to + 1 + length bs) (inr (omega arith)) ∙ ap m there ∙ z),
      );
  frame = λ a p. c.frame a (omega arith) ∙ write_away to (b ∷ []) m a (omega arith);
}

copy_name-IsCopied :
    (room to from : ℕ) (name : List ℕ) (m : Memory)
    → IsString m from name
    → (from + length name < to) ⊎ (to + room ≤ from)
    → IsCopied to (take room name) m (copy_name room to from m)
unfolding copy_name
copy_name-IsCopied zero to from name m s apart = IsCopied-nil to m
copy_name-IsCopied (suc room) to from [] m s apart =
    let ends : (m from == 0) ≡ true = ground (arith, s) in rw ends (IsCopied-nil to m)
copy_name-IsCopied (suc room) to from (b ∷ bs) m (first, nonzero, rest) apart =
    let more : (m from == 0) ≡ false = ground (arith, first, nonzero) in
    let m1 = write to (b ∷ []) m in
    let still =
      IsString-congr m m1 (from + 1) bs (λ a lo hi. write_away to (b ∷ []) m a (omega arith))
        rest in
    rw (more, first)
      (IsCopied-cons to b (take room bs) m _ nonzero
        (copy_name-IsCopied room (to + 1) (from + 1) bs m1 still (omega arith)))

-- A module as it stands in memory: the structure at its index, and the name that it points to, of
-- at most 63 bytes.
abbrev pub IsModule : ℕ → Memory → ℕ → Named → Type 0
IsModule base m i nm =
    (read 16 (base + mb1_modules_at + i * mb1_module_size) m
      ≡ mb1_module_bytes nm.info (name_at base i))
    × IsString m (name_at base i) (take (mb1_name_max - 1) nm.name)

abbrev pub AreModules : ℕ → Memory → ℕ → List Named → Type 0
AreModules base m i [] = Unit
AreModules base m i (nm ∷ nms) = IsModule base m i nm × AreModules base m (i + 1) nms

IsModule-congr :
    (base : ℕ) (m m' : Memory) (i : ℕ) (nm : Named)
    → ((a : ℕ)
        → base + mb1_modules_at + i * mb1_module_size ≤ a
        → a < base + mb1_modules_at + (i + 1) * mb1_module_size
        → m' a ≡ m a)
    → ((a : ℕ) → name_at base i ≤ a → a < name_at base (i + 1) → m' a ≡ m a)
    → IsModule base m i nm
    → IsModule base m' i nm
IsModule-congr base m m' i nm h k (entry, name) =
    let short = length-take (mb1_name_max - 1) nm.name in
    (
      read_congr 16 (base + mb1_modules_at + i * mb1_module_size) m' m
            (λ a lo hi. h a lo (omega arith))
          ∙ entry,
      IsString-congr m m' (name_at base i) (take (mb1_name_max - 1) nm.name)
          (λ a lo hi. k a lo (omega (arith, short))) name,
    )

pub AreModules-congr :
    (base : ℕ) (m m' : Memory) (i : ℕ) (nms : List Named)
    → i + length nms ≤ 32
    → ((a : ℕ) → base + mb1_modules_at ≤ a → a < base + mb1_mmap_at → m' a ≡ m a)
    → AreModules base m i nms
    → AreModules base m' i nms
AreModules-congr base m m' i [] few h ms = tt
AreModules-congr base m m' i (nm ∷ nms) few h (module_at, rest) = (
  IsModule-congr base m m' i nm (λ a lo hi. h a (omega arith) (omega arith))
      (λ a lo hi. h a (omega arith) (omega arith)) module_at,
  AreModules-congr base m m' (i + 1) nms (omega arith) h rest,
)

-- Where the modules from the index `i` on are not.
abbrev pub IsElsewhere : ℕ → ℕ → ℕ → Type 0
IsElsewhere base i a =
    (a < base + mb1_modules_at + i * mb1_module_size)
    ⊎ (((base + mb1_names_at ≤ a) × (a < name_at base i)) ⊎ (base + mb1_mmap_at ≤ a))

-- The names' places from the index `i` on hold zeros.
abbrev pub IsClear : ℕ → Memory → ℕ → Type 0
IsClear base m i = (a : ℕ) → name_at base i ≤ a → a < base + mb1_mmap_at → m a ≡ 0

record IsStored1 (base i : ℕ) (nm : Named) (m m' : Memory) : Type 0 where
  here : IsModule base m' i nm
  clear : IsClear base m' (i + 1)
  frame : (a : ℕ) → IsElsewhere base i a → m' a ≡ m a

write_module1-IsStored1 :
    (base i : ℕ) (nm : Named) (m : Memory)
    → i < 32
    → IsString m nm.info.name_ptr nm.name
    → (nm.info.name_ptr + suc (length nm.name) ≤ base) ⊎ (base + info_size ≤ nm.info.name_ptr)
    → IsClear base m i
    → IsStored1 base i nm m (write_module1 base i nm.info m)
unfolding write_module1
write_module1-IsStored1 base i nm m few s apart clear =
    let to = name_at base i in
    let entry = base + mb1_modules_at + i * mb1_module_size in
    let bs = mb1_module_bytes nm.info to in
    let cut = take (mb1_name_max - 1) nm.name in
    let short = length-take (mb1_name_max - 1) nm.name in
    let named = copy_name (mb1_name_max - 1) to nm.info.name_ptr m in
    let c = copy_name-IsCopied (mb1_name_max - 1) to nm.info.name_ptr nm.name m s (omega arith) in
    let name = c.string (clear (to + length cut) (omega arith) (omega (arith, short))) in
    record {
      here = (
        read-write entry bs named,
        IsString-congr named (write entry bs named) to cut
            (λ a lo hi. write_away entry bs named a (omega arith)) name,
      );
      clear = λ a lo hi.
          write_away entry bs named a (omega arith)
          ∙ c.frame a (inr (omega (arith, short)))
          ∙ clear a (omega arith) hi;
      frame = λ a p.
          write_away entry bs named a (omega (arith, p)) ∙ c.frame a (omega (arith, p, short));
    }

-- The loop over the modules: they all stand in memory, and nothing but their places has changed.
pub record IsStage (base i : ℕ) (nms : List Named) (m m' : Memory) : Type 0 where
  pub modules : AreModules base m' i nms
  pub frame : (a : ℕ) → IsElsewhere base i a → m' a ≡ m a

pub write_modules1-IsStage :
    (base i : ℕ) (nms : List Named) (m0 m : Memory)
    → i + length nms ≤ 32
    → All (HasName base m0) nms
    → ((a : ℕ) → (a < base) ⊎ (base + info_size ≤ a) → m a ≡ m0 a)
    → IsClear base m i
    → IsStage base i nms m (write_modules1 base (infos nms) i m)
unfolding write_modules1
write_modules1-IsStage base i [] m0 m few names same clear = record {
  modules = tt;
  frame = λ a p. refl;
}
write_modules1-IsStage base i (nm ∷ nms) m0 m few (name, names) same clear =
    let source = IsString-read m0 nm.info.name_ptr nm.name name.nonzero name.bytes in
    let still =
      IsString-congr m0 m nm.info.name_ptr nm.name (λ a lo hi. same a (omega (arith, name.apart)))
        source in
    let w = write_module1-IsStored1 base i nm m (omega arith) still name.apart clear in
    let m1 = write_module1 base i nm.info m in
    let rest =
      write_modules1-IsStage base (i + 1) nms m0 m1 (omega arith) names
        (λ a p. w.frame a (omega (arith, p)) ∙ same a p) w.clear in
    record {
      modules = (
        IsModule-congr base m1 _ i nm (λ a lo hi. rest.frame a (omega arith))
            (λ a lo hi. rest.frame a (omega arith)) w.here,
        rest.modules,
      );
      frame = λ a p. rest.frame a (omega (arith, p)) ∙ w.frame a p;
    }
