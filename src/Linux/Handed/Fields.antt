-- ===== src/Linux/Handed/Fields.antt =====
-- src/linux.rs: the stores of `boot` for the command line and the last fields.
use bang.Common.{
  ℕ, ◌+◌, ◌-◌, ◌*◌, ◌%◌, ◌^◌, ◌≤◌, ◌<◌, ◌≡◌, sym, ap, subst, ◌∙◌, ◌⊎◌, inl, inr, max, some, List,
  [], ◌∷◌, ◌++◌, arith, Memory, write, write_away, write_inside, write_cons, ltb→lt, ltb→le, length,
  length-le_bytes, le_bytes, get_or, get_or_default, get_or-append_left, get_or-append_right,
  Bool-cases, ltb,
}
use bang.Linux.{div_ceil}
use bang.Linux.Boot.{with_command, with_rest}
use bang.Linux.Handed.{enough_pages, some_page}
use bang.Linux.Regions.{Region, Beside, apart, Region-given, Region-beside, Region-write}
use bang.Uefi.Pages.{outside_swap}
use bang.Uefi.{LowMemory}

module _ (low : LowMemory) where
  open low use {S, allocate_below, takes, ends_below}

  -- The command line, in pages of its own behind a page with the content `bp`.
  module _ (cl : List ℕ) (params cmd_mem : ℕ) (m : Memory) (fw fw' : S)
      (given : allocate_below 0x1_0000_0000 fw (max (div_ceil (length cl + 1)) 1)
        ≡ some (cmd_mem, fw')) where
    abbrev pages : ℕ
    pages = max (div_ceil (length cl + 1)) 1

    abbrev with_string : Memory
    with_string = write (cmd_mem + length cl) (0 ∷ []) (write cmd_mem cl m)

    string_outside : (a : ℕ) → (a < cmd_mem) ⊎ (cmd_mem + pages * 4096 ≤ a) → with_string a ≡ m a
    string_outside a out =
        let enough = enough_pages (length cl + 1) in
        write_away (cmd_mem + length cl) (0 ∷ []) (write cmd_mem cl m) a
          (omega (arith, out, enough))
        ∙ write_away cmd_mem cl m a (omega (arith, out, enough))

    string_holds :
        (o : ℕ) → o < length cl + 1 → with_string (cmd_mem + o) ≡ get_or (cl ++ 0 ∷ []) o 0
    string_holds o d = elim (Bool-cases (ltb o (length cl))) [
      | inl inside ↦
          let i : o < length cl = ltb→lt _ _ inside in
          write_away (cmd_mem + length cl) (0 ∷ []) (write cmd_mem cl m) (cmd_mem + o)
            (inl (omega arith))
          ∙ write_inside cmd_mem cl m o
          ∙ get_or_default cl o (m (cmd_mem + o)) 0 i
          ∙ sym (get_or-append_left cl (0 ∷ []) o 0 i)
      | inr last ↦
          let end : length cl ≡ o = omega (arith, ltb→le _ _ last) in
          let none_in : o - length cl ≡ 0 = omega (arith, end) in
          ap (λ e. write (cmd_mem + e) (0 ∷ []) (write cmd_mem cl m) (cmd_mem + o)) end
          ∙ write_cons (cmd_mem + o) 0 [] (write cmd_mem cl m)
          ∙ sym (
              get_or-append_right cl (0 ∷ []) o 0 (omega (arith, end))
              ∙ ap (λ k. get_or (0 ∷ []) k 0) none_in)
    ]

    pub with_command-Region :
        Beside params cmd_mem (length cl + 1)
        → Region low fw' cmd_mem
            (length cl + 1)
            (λ o. get_or (cl ++ 0 ∷ []) o 0)
            (with_command params cmd_mem cl m)
    with_command-Region beside =
        Region-beside low fw' cmd_mem (length cl + 1) (λ o. get_or (cl ++ 0 ∷ []) o 0) with_string
          string params 0x228 (le_bytes 4 cmd_mem) beside (omega (arith, length-le_bytes 4 cmd_mem))
      where
        string : Region low fw' cmd_mem (length cl + 1) (λ o. get_or (cl ++ 0 ∷ []) o 0) with_string
        string = record {
          ours = λ a lo hi.
              takes 0x1_0000_0000 fw fw' pages cmd_mem a given lo
                (omega (arith, enough_pages (length cl + 1)));
          holds = string_holds;
        }

    pub with_command-page :
        (bp : ℕ → ℕ)
        → Region low fw params 4096 bp m
        → Region low fw' params 4096
            (write 0x228 (le_bytes 4 cmd_mem) bp)
            (with_command params cmd_mem cl m)
    with_command-page bp r =
        Region-write low fw' params 4096 bp with_string
          (Region-given low fw params 4096 bp m r 0x1_0000_0000 pages cmd_mem fw' given with_string
            string_outside)
          0x228 (le_bytes 4 cmd_mem)

    pub with_command-keeps :
        (at n : ℕ) (c : ℕ → ℕ)
        → Region low fw at n c m
        → Beside params at n
        → Region low fw' at n c (with_command params cmd_mem cl m)
    with_command-keeps at n c r beside =
        Region-beside low fw' at n c with_string
          (Region-given low fw at n c m r 0x1_0000_0000 pages cmd_mem fw' given with_string
            string_outside)
          params 0x228 (le_bytes 4 cmd_mem) beside (omega (arith, length-le_bytes 4 cmd_mem))

    pub command-Beside :
        (bp : ℕ → ℕ) → Region low fw params 4096 bp m → Beside params cmd_mem (length cl + 1)
    command-Beside bp r a lo hi =
        outside_swap params 4096 cmd_mem (pages * 4096)
          (apart low fw params 4096 bp m r 0x1_0000_0000 pages cmd_mem fw' given) a lo
          (omega (arith, enough_pages (length cl + 1)))

    pub command_below : cmd_mem < 2 ^ 32
    command_below =
        let ends = ends_below 0x1_0000_0000 fw fw' pages cmd_mem given in
        omega (arith, ends, some_page (length cl + 1))

  -- The last fields.
  module _ (params kernel_mem : ℕ) (m : Memory) (fw : S) where
    abbrev typed : Memory
    typed = write (params + 0x210) (0xff ∷ []) m

    abbrev flagged : ℕ → Memory
    flagged flags = write (params + 0x211) ((flags + (1 - flags % 2)) ∷ []) typed

    pub with_rest-keeps :
        (at n : ℕ) (c : ℕ → ℕ)
        → Region low fw at n c m
        → Beside params at n
        → Region low fw at n c (with_rest params kernel_mem m)
    with_rest-keeps at n c r beside =
        let flags = typed (params + 0x211) in
        Region-beside low fw at n c (flagged flags)
          (Region-beside low fw at n c typed
            (Region-beside low fw at n c m r params 0x210 (0xff ∷ []) beside (omega arith)) params
            0x211 ((flags + (1 - flags % 2)) ∷ []) beside (omega arith))
          params 0x214 (le_bytes 4 kernel_mem) beside (omega (arith, length-le_bytes 4 kernel_mem))

    pub with_rest-page :
        (bp : ℕ → ℕ)
        → Region low fw params 4096 bp m
        → (let bp4 = write 0x210 (0xff ∷ []) bp in
            let flags = bp4 0x211 in
            Region low fw params 4096
              (write 0x214
                (le_bytes 4 kernel_mem)
                (write 0x211 ((flags + (1 - flags % 2)) ∷ []) bp4))
              (with_rest params kernel_mem m))
    with_rest-page bp r =
        let bp4 = write 0x210 (0xff ∷ []) bp in
        let typed_page = Region-write low fw params 4096 bp m r 0x210 (0xff ∷ []) in
        let same : typed (params + 0x211) ≡ bp4 0x211 = typed_page.holds 0x211 (omega arith) in
        subst
          (λ flags.
            Region low fw params 4096
              (write 0x214 (le_bytes 4 kernel_mem)
                (write 0x211 ((bp4 0x211 + (1 - bp4 0x211 % 2)) ∷ []) bp4))
              (write (params + 0x214) (le_bytes 4 kernel_mem) (flagged flags)))
          (sym same)
          (Region-write low fw params 4096
            (write 0x211 ((bp4 0x211 + (1 - bp4 0x211 % 2)) ∷ []) bp4) (flagged (bp4 0x211))
            (Region-write low fw params 4096 bp4 typed typed_page 0x211
              ((bp4 0x211 + (1 - bp4 0x211 % 2)) ∷ []))
            0x214 (le_bytes 4 kernel_mem))
