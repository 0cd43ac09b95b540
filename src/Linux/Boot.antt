-- ===== src/Linux/Boot.antt =====
-- src/linux.rs: `boot`, from the files to the call of the handover entry, with the memory that it
-- writes. The image and the initrd are buffers of the loader's own, apart from that memory.
use bang.Common.{
  ℕ, ◌+◌, ◌-◌, ◌%◌, Option, none, some, List, [], ◌∷◌, Memory, write, fill, length, take, drop,
  le_bytes,
}
use bang.Common.Text.{Text}
use bang.Elf.{word}
use bang.Linux.{
  Status, not_found, out_of_resources, Outcome, ok, fail, Setup, check, need, place_kernel,
  alloc_low, hdr_end, entry_point,
}
use bang.Linux.Command.{command_line}
use bang.Linux.Reading.{Read, whole, unread, out_of_fuel}

-- A step's result; or a status that `boot` returns, a panic, or the end of the fuel.
pub data Booting (A : Type 0) : Type 0 where
  done : A → Booting A
  returns : Status → Booting A
  panics unfinished : Booting A

infixl 5 ◌>>=◌
abbrev pub ◌>>=◌ : {A B : Type 0} → Booting A → (A → Booting B) → Booting B
done a >>= f = f a
returns status >>= f = returns status
panics >>= f = panics
unfinished >>= f = unfinished

abbrev pub of_outcome : {A : Type 0} → Outcome A → Booting A
of_outcome (ok a) = done a
of_outcome (fail status) = returns status

abbrev pub allocated : {A : Type 0} → Option A → Booting A
allocated none = returns out_of_resources
allocated (some a) = done a

abbrev pub truncated : Option (List ℕ) → Booting (List ℕ)
truncated none = panics
truncated (some cl) = done cl

-- The call of the handover entry: where, with which page, and what memory and firmware are then.
pub record Handover (S : Type 0) : Type 0 where
  pub entry : ℕ
  pub params : ℕ
  pub memory : Memory
  pub firmware : S

-- The stores of `boot`, in order.
abbrev pub with_kernel : List ℕ → Setup → ℕ → Memory → Memory
with_kernel image s kernel_mem m =
    write kernel_mem (drop s.kernel_offset image) (fill kernel_mem 0 (need image s) m)

abbrev pub with_header : List ℕ → ℕ → Memory → Memory
with_header image params m =
    write (params + 0x1f1) (take (hdr_end image - 0x1f1) (drop 0x1f1 image)) (fill params 0 4096 m)

abbrev pub with_command : ℕ → ℕ → List ℕ → Memory → Memory
with_command params cmd_mem cl m =
    write (params + 0x228) (le_bytes 4 cmd_mem)
      (write (cmd_mem + length cl) (0 ∷ []) (write cmd_mem cl m))

abbrev pub with_initrd : ℕ → ℕ → List ℕ → Memory → Memory
with_initrd params mem initrd m =
    write (params + 0x21c) (le_bytes 4 (length initrd))
      (write (params + 0x218) (le_bytes 4 mem) (write mem initrd m))

abbrev pub with_rest : ℕ → ℕ → Memory → Memory
with_rest params kernel_mem m =
    let typed = write (params + 0x210) (0xff ∷ []) m in
    let flags = typed (params + 0x211) in
    write (params + 0x214) (le_bytes 4 kernel_mem)
      (write (params + 0x211) ((flags + (1 - flags % 2)) ∷ []) typed)

module _ {S : Type 0} (allocate : S → ℕ → ℕ → Option S)
    (allocate_below : ℕ → S → ℕ → Option (ℕ × S)) where
  abbrev pub placed : ℕ → List ℕ → Memory → S → Option (ℕ × S) → Memory × S
  placed params initrd m fw none = (m, fw)
  placed params initrd m fw (some (mem, fw')) = (with_initrd params mem initrd m, fw')

  abbrev pub initrd_read : ℕ → Read → Memory → S → Booting (Memory × S)
  initrd_read params (whole initrd) m fw =
      done (placed params initrd m fw (alloc_low allocate allocate_below fw (length initrd)))
  initrd_read params unread m fw = done (m, fw)
  initrd_read params out_of_fuel m fw = unfinished

  module _ (file : Text → Read) where
    -- `if let Some(path) = initrd_path`
    unfoldable pub load_initrd : ℕ → Option Text → Memory → S → Booting (Memory × S)
    unfolding alloc_low
    load_initrd params none m fw = done (m, fw)
    load_initrd params (some path) m fw = initrd_read params (file path) m fw

    -- From the command line on.
    unfoldable pub boot_command :
        List ℕ → Setup → Option Text → Text → Memory → S → ℕ → ℕ → Booting (Handover S)
    unfolding load_initrd command_line
    boot_command image s initrd_path cmdline m fw kernel_mem params =
        truncated (command_line (word 4 image 0x238) cmdline) >>= λ cl.
        allocated (alloc_low allocate allocate_below fw (length cl + 1)) >>= λ (cmd_mem, fw').
        load_initrd params initrd_path (with_command params cmd_mem cl m) fw' >>= λ (m', fw'').
        done (record {
          entry = entry_point s kernel_mem;
          params = params;
          memory = with_rest params kernel_mem m';
          firmware = fw'';
        })

    -- What `boot` does with the image.
    unfoldable pub boot_image : List ℕ → Option Text → Text → Memory → S → Booting (Handover S)
    unfolding check place_kernel boot_command
    boot_image image initrd_path cmdline m fw = of_outcome (check image) >>= λ s.
        of_outcome (place_kernel allocate allocate_below image s fw) >>= λ (kernel_mem, fw1).
        allocated (alloc_low allocate allocate_below fw1 4096) >>= λ (params, fw2).
        boot_command image s initrd_path cmdline
          (with_header image params (with_kernel image s kernel_mem m)) fw2 kernel_mem params

    abbrev pub boot_read : Read → Option Text → Text → Memory → S → Booting (Handover S)
    boot_read (whole image) initrd_path cmdline m fw = boot_image image initrd_path cmdline m fw
    boot_read unread initrd_path cmdline m fw = returns not_found
    boot_read out_of_fuel initrd_path cmdline m fw = unfinished

    unfoldable pub boot : Text → Option Text → Text → Memory → S → Booting (Handover S)
    unfolding boot_image
    boot kernel_path initrd_path cmdline m fw =
        boot_read (file kernel_path) initrd_path cmdline m fw
