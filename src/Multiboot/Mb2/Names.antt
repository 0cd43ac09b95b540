-- ===== src/Multiboot/Mb2/Names.antt =====
-- src/multiboot.rs, `build_mb2_info`: the module tags, whose names are read from memory.
use bang.Common.{
  ℕ, zero, suc, ◌+◌, ◌%◌, ◌^◌, ◌≤◌, ◌<◌, ◌≡◌, ◌≢◌, refl, sym, ◌∙◌, ◌⊎◌, inl, inr, List, [], ◌∷◌,
  ◌++◌, map, some, append_assoc, arith, Memory, read, le_bytes, length, All, length-append,
  read_congr, ltb, ltb→lt, ltb→le, lt→ltb, le→ltb, Bool-cases,
}
use bang.Modules.{ModuleInfo}
use bang.Multiboot.{info_size, align8}
use bang.Multiboot.Buffer.{Holds, Holds-congr, Holds-write, Holds-write_u32}
use bang.Multiboot.Mb2.{
  Out, out_at, name_length, name_fuel, write_module_fields, write_module, write_modules,
}
use bang.Multiboot.Mb2.Stages.{Building, Building-concat}
use bang.Multiboot.Mb2.Tags.{Tag, tag_size, total_size, Named, module_tag, add_modules}

-- A NUL-terminated name of less than 4096 bytes stands at `name_ptr`, outside the region.
pub record HasName (base : ℕ) (m : Memory) (nm : Named) : Type 0 where
  pub bytes : read (suc (length nm.name)) nm.info.name_ptr m ≡ nm.name ++ 0 ∷ []
  pub nonzero : All (λ b. b ≢ 0) nm.name
  pub short : length nm.name < name_fuel
  pub apart :
      (nm.info.name_ptr + suc (length nm.name) ≤ base) ⊎ (base + info_size ≤ nm.info.name_ptr)

abbrev pub infos : List Named → List ModuleInfo
infos = map (λ nm. nm.info)

abbrev stated_size : Named → ℕ
stated_size nm = 4 + 4 + 4 + 4 + length nm.name + 1

tag_size-module_tag : (nm : Named) → tag_size (module_tag nm) ≡ stated_size nm
tag_size-module_tag nm = omega (arith, length-append nm.name (0 ∷ []))

-- The scan finds the terminator, given fuel for the name.
pub name_length_lem :
    (fuel : ℕ) (name : List ℕ) (m : Memory) (at : ℕ)
    → length name < fuel
    → read (suc (length name)) at m ≡ name ++ 0 ∷ []
    → All (λ b. b ≢ 0) name
    → name_length fuel m at ≡ some (length name)
unfolding name_length
name_length_lem zero name m at f e nz = absurd (omega arith)
name_length_lem (suc fuel) [] m at f e nz = ground arith
name_length_lem (suc fuel) (b ∷ name) m at f e nz =
    ground (arith, name_length_lem fuel name m (at + 1), nz.0)

module _ {base : ℕ} {m : Memory} where
  -- What was written so far left the name as it was.
  read_kept :
      {pos : ℕ} {bs : List ℕ} {m' : Memory} (nm : Named)
      → HasName base m nm
      → Holds base pos bs m m'
      → read (suc (length nm.name)) nm.info.name_ptr m' ≡ nm.name ++ 0 ∷ []
  read_kept {m'} nm n h =
      read_congr (suc (length nm.name)) nm.info.name_ptr m' m (λ a p q. h.frame a (away a p q))
      ∙ n.bytes
    where
      away :
          (a : ℕ)
          → nm.info.name_ptr ≤ a
          → a < nm.info.name_ptr + suc (length nm.name)
          → (a < base) ⊎ (base + info_size ≤ a)
      away a p q = elim n.apart [ inl l ↦ inl (omega arith) | inr r ↦ inr (omega arith) ]

  Holds-write_module_fields :
      {bs : List ℕ} {m' : Memory} (pos : ℕ) (mi : ModuleInfo) (size : ℕ)
      → pos + 16 ≤ info_size
      → Holds base pos bs m m'
      → Holds base
          (pos + 16)
          (bs
            ++ (le_bytes 4 3
                ++ (le_bytes 4 size
                    ++ (le_bytes 4 mi.phys_start
                        ++ le_bytes 4 ((mi.phys_start + mi.size) % 2 ^ 64)))))
          m
          (write_module_fields base pos mi size m')
  unfolding write_module_fields
  Holds-write_module_fields {bs} pos mi size f h =
      let h1 = Holds-write_u32 pos _ h refl (omega arith) in
      let h2 = Holds-write_u32 (pos + 4) _ h1 (omega arith) (omega arith) in
      let h3 = Holds-write_u32 (pos + 8) _ h2 (omega arith) (omega arith) in
      let h4 = Holds-write_u32 (pos + 12) _ h3 (omega arith) (omega arith) in
      Holds-congr (omega arith) (simp append_assoc) h4

  Holds-write_module :
      {bs : List ℕ} {m' : Memory} (pos : ℕ) (nm : Named)
      → HasName base m nm
      → pos + stated_size nm ≤ info_size
      → Holds base pos bs m m'
      → Holds base
          (pos + stated_size nm)
          (bs ++ (le_bytes 4 3 ++ (le_bytes 4 (stated_size nm) ++ (module_tag nm).payload)))
          m
          (write_module base pos nm.info (length nm.name) m')
  unfolding write_module
  Holds-write_module {bs} {m'} pos nm n f h =
      let h4 = Holds-write_module_fields pos nm.info (stated_size nm) (omega arith) h in
      let length_is : length (nm.name ++ 0 ∷ []) ≡ length nm.name + 1 =
        length-append nm.name (0 ∷ []) in
      let h5 =
        Holds-write (pos + 16) (nm.name ++ 0 ∷ []) h4 (omega arith) (omega (arith, length_is)) in
      rw (name_read (write_module_fields base pos nm.info (stated_size nm) m') h4)
        (Holds-congr (omega (arith, length_is)) (simp append_assoc) h5)
    where
      name_read :
          (m4 : Memory) {at : ℕ} {cs : List ℕ}
          → Holds base at cs m m4
          → read (length nm.name + 1) nm.info.name_ptr m4 ≡ nm.name ++ 0 ∷ []
      name_read m4 h4 =
          let one_more : length nm.name + 1 ≡ suc (length nm.name) = omega arith in
          rw one_more (read_kept {m' = m4} nm n h4)

  pub write_modules-Building :
      (nms : List Named) (ts : List Tag) (o : Out)
      → All (HasName base m) nms
      → Building base ts m o
      → (o' : Out) × (write_modules base (infos nms) o ≡ some o')
        × Building base (add_modules nms ts) m o'
  unfolding write_modules add_modules
  write_modules-Building [] ts o ns b = (o, refl, b)
  write_modules-Building (nm ∷ nms) ts o ns b =
      rw
        (name_length_lem name_fuel nm.name o.mem nm.info.name_ptr ns.0.short
          (read_kept nm ns.0 b.holds) ns.0.nonzero)
        (elim (Bool-cases (ltb info_size (o.pos + stated_size nm))) [
          | inl over ↦
              let p : info_size < o.pos + stated_size nm = ltb→lt _ _ over in
              (
                o,
                rw over,
                rw
                    (lt→ltb info_size (total_size ts + tag_size (module_tag nm))
                      (omega (arith, b.holds.ends, tag_size-module_tag nm)))
                    b,
              )
          | inr fits ↦
              let p : o.pos + stated_size nm ≤ info_size = ltb→le _ _ fits in
              let (o', e, b') =
                write_modules-Building nms (ts ++ module_tag nm ∷ [])
                  (out_at (align8 (o.pos + stated_size nm))
                    (write_module base o.pos nm.info (length nm.name) o.mem))
                  ns.1
                  (Building-concat ts o.pos (stated_size nm) (module_tag nm) b.aligned
                    (sym (tag_size-module_tag nm)) p
                    (Holds-write_module o.pos nm ns.0 p b.holds)) in
              (
                o',
                rw fits e,
                rw
                    (le→ltb info_size (total_size ts + tag_size (module_tag nm))
                      (omega (arith, b.holds.ends, tag_size-module_tag nm)))
                    b',
              )
        ])
