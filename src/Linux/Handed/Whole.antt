-- ===== src/Linux/Handed/Whole.antt =====
-- src/linux.rs: `boot` as a whole, when it comes to the call of the kernel.
use bang.Common.{
  ℕ, ◌+◌, ◌-◌, ◌^◌, ◌<◌, ◌≡◌, refl, ap, subst, max, Option, none, some, List, [], ◌∷◌, ◌++◌, arith,
  Memory, write, length, le_bytes, take, drop, get_or,
}
use bang.Common.Text.{Text}
use bang.Elf.{word}
use bang.Linux.{
  Setup, Outcome, ok, fail, check, need, div_ceil, hdr_end, entry_point, place_kernel, alloc_low,
  boot_params, put_initrd,
}
use bang.Linux.Boot.{
  done, Handover, of_outcome, allocated, truncated, with_kernel, with_header, with_command,
  with_rest, load_initrd, boot_command, boot_image, boot_read, boot,
}
use bang.Linux.Command.{command_line}
use bang.Linux.Handed.{done-bind, done-inj, sizes, HasRamdisk, IsHandedOver}
use bang.Linux.Handed.Fields.{
  with_command-Region, with_command-page, with_command-keeps, command-Beside, command_below,
  with_rest-keeps, with_rest-page,
}
use bang.Linux.Handed.Ramdisks.{load_initrd-HasTaken}
use bang.Linux.Handed.Stores.{
  with_kernel-Region, with_header-Region, with_header-keeps, kernel-Beside,
}
use bang.Linux.Reading.{Read, whole}
use bang.Linux.Regions.{Region, Beside}
use bang.Uefi.{LowMemory, FixedMemory}

allocated-done : {A : Type 0} (o : Option A) {a : A} → allocated o ≡ done a → o ≡ some a
allocated-done none e = cc
allocated-done (some a) e = ap some (done-inj e)

truncated-done : (o : Option (List ℕ)) {cl : List ℕ} → truncated o ≡ done cl → o ≡ some cl
truncated-done none e = cc
truncated-done (some cl) e = ap some (done-inj e)

of_outcome-done : {A : Type 0} (o : Outcome A) {a : A} → of_outcome o ≡ done a → o ≡ ok a
of_outcome-done (ok a) e = ap ok (done-inj e)
of_outcome-done (fail status) e = cc

module _ (low : LowMemory) (fixed : FixedMemory low) (file : Text → Read) where
  open low use {S, allocate_below, ends_below}

  module _ (image : List ℕ) (s : Setup) (path : Option Text) (cmdline : Text)
      (kernel_mem params : ℕ) (fw : S) (m : Memory) where
    abbrev kernel_bytes : ℕ → ℕ
    kernel_bytes o = get_or (drop s.kernel_offset image) o 0

    HasRamdisk-rest :
        (fw2 : S) (m2 : Memory) (initrd : Option (ℕ × List ℕ))
        → HasRamdisk low fixed file params fw2 m2 initrd
        → HasRamdisk low fixed file params fw2 (with_rest params kernel_mem m2) initrd
    HasRamdisk-rest fw2 m2 none r = tt
    HasRamdisk-rest fw2 m2 (some (at, bytes)) (region, apart, below) = (
      with_rest-keeps low params kernel_mem m2 fw2 at (length bytes) (λ o. get_or bytes o 0) region
          apart,
      apart,
      below,
    )

    abbrev header_page : ℕ → ℕ
    header_page = write 0x1f1 (take (hdr_end image - 0x1f1) (drop 0x1f1 image)) (λ o. 0)

    module _ (checks : check image ≡ ok s) (below : params < 2 ^ 32)
        (kernel : Region low fw kernel_mem (need image s) kernel_bytes m)
        (beside : Beside params kernel_mem (need image s))
        (page : Region low fw params 4096 header_page m) where
      steps-IsHandedOver :
          (cl : List ℕ) (cmd_mem : ℕ) (fw1 fw2 : S) (m2 : Memory)
          → command_line (word 4 image 0x238) cmdline ≡ some cl
          → allocate_below 0x1_0000_0000 fw (max (div_ceil (length cl + 1)) 1) ≡ some (cmd_mem, fw1)
          → load_initrd fixed.allocate allocate_below file params path
              (with_command params cmd_mem cl m)
              fw1
            ≡ done (m2, fw2)
          → IsHandedOver low fixed file image path cmdline record {
            entry = entry_point s kernel_mem;
            params = params;
            memory = with_rest params kernel_mem m2;
            firmware = fw2;
          }
      unfolding boot_params
      steps-IsHandedOver cl cmd_mem fw1 fw2 m2 cut given loads =
          let bp2 = write 0x228 (le_bytes 4 cmd_mem) header_page in
          let string = (λ (o : ℕ). get_or (cl ++ 0 ∷ []) o 0) in
          let cmd_beside = command-Beside low cl params cmd_mem m fw fw1 given header_page page in
          let t =
            load_initrd-HasTaken low fixed file params bp2 path (with_command params cmd_mem cl m)
              fw1 (m2, fw2)
              (with_command-page low cl params cmd_mem m fw fw1 given header_page page) loads in
          let rest = with_rest-keeps low params kernel_mem m2 fw2 in
          record {
            setup = s;
            is_checked = checks;
            kernel_mem = kernel_mem;
            cmd_mem = cmd_mem;
            cl = cl;
            is_cut = cut;
            initrd = t.initrd;
            is_ramdisk = t.is_ramdisk;
            entry = refl;
            kernel =
                rest kernel_mem (need image s) kernel_bytes
                  (t.keeps kernel_mem (need image s) kernel_bytes
                    (with_command-keeps low cl params cmd_mem m fw fw1 given kernel_mem
                      (need image s) kernel_bytes kernel beside)
                    beside)
                  beside;
            page =
                with_rest-page low params kernel_mem m2 fw2
                  (put_initrd (sizes low fixed file t.initrd) bp2) t.page;
            command =
                rest cmd_mem (length cl + 1) string
                  (t.keeps cmd_mem (length cl + 1) string
                    (with_command-Region low cl params cmd_mem m fw fw1 given cmd_beside)
                    cmd_beside)
                  cmd_beside;
            ramdisk = HasRamdisk-rest fw2 m2 t.initrd t.ramdisk;
            low_addresses = (below, command_below low cl params cmd_mem m fw fw1 given);
          }

      boot_command-IsHandedOver :
          (h : Handover S)
          → boot_command fixed.allocate allocate_below file image s path cmdline m fw kernel_mem
              params
            ≡ done h
          → IsHandedOver low fixed file image path cmdline h
      unfolding boot_command alloc_low
      boot_command-IsHandedOver h e =
          let (cl, cut, e1) = done-bind _ _ e in
          let ((cmd_mem, fw1), given, e2) = done-bind _ _ e1 in
          let ((m2, fw2), loads, e3) = done-bind _ _ e2 in
          subst (IsHandedOver low fixed file image path cmdline) (done-inj e3) (
            steps-IsHandedOver cl cmd_mem fw1 fw2 m2 (truncated-done _ cut) (allocated-done _ given)
              loads)

  boot_image-IsHandedOver :
      (image : List ℕ) (path : Option Text) (cmdline : Text) (m : Memory) (fw : S) (h : Handover S)
      → boot_image fixed.allocate allocate_below file image path cmdline m fw ≡ done h
      → IsHandedOver low fixed file image path cmdline h
  unfolding boot_image alloc_low
  boot_image-IsHandedOver image path cmdline m fw h e =
      let (s, checks, e1) = done-bind _ _ e in
      let ((kernel_mem, fw1), places, e2) = done-bind _ _ e1 in
      let ((params, fw2), given, e3) = done-bind _ _ e2 in
      entered s kernel_mem params fw1 fw2 (of_outcome-done _ checks) (of_outcome-done _ places)
        (allocated-done _ given) e3
    where
      entered :
          (s : Setup) (kernel_mem params : ℕ) (fw1 fw2 : S)
          → check image ≡ ok s
          → place_kernel fixed.allocate allocate_below image s fw ≡ ok (kernel_mem, fw1)
          → allocate_below 0x1_0000_0000 fw1 1 ≡ some (params, fw2)
          → boot_command fixed.allocate allocate_below file image s path cmdline
              (with_header image params (with_kernel image s kernel_mem m))
              fw2
              kernel_mem
              params
            ≡ done h
          → IsHandedOver low fixed file image path cmdline h
      entered s kernel_mem params fw1 fw2 checks places given e3 =
          let m1 = with_kernel image s kernel_mem m in
          let kernel = with_kernel-Region low fixed image s fw fw1 kernel_mem m places in
          boot_command-IsHandedOver image s path cmdline kernel_mem params fw2
            (with_header image params m1) checks
            (omega (arith, ends_below 0x1_0000_0000 fw1 fw2 1 params given))
            (with_header-keeps low fixed image params m1 fw1 fw2 given kernel_mem (need image s)
              (λ o. get_or (drop s.kernel_offset image) o 0) kernel)
            (kernel-Beside low fixed image params m1 fw1 fw2 given kernel_mem (need image s)
              (λ o. get_or (drop s.kernel_offset image) o 0) kernel)
            (with_header-Region low fixed image params m1 fw1 fw2 given) h e3

  boot_read-IsHandedOver :
      (answer : Read) (path : Option Text) (cmdline : Text) (m : Memory) (fw : S) (h : Handover S)
      → boot_read fixed.allocate allocate_below file answer path cmdline m fw ≡ done h
      → (image : List ℕ) × (answer ≡ whole image) × IsHandedOver low fixed file image path cmdline h
  boot_read-IsHandedOver (whole image) path cmdline m fw h e =
      (image, refl, boot_image-IsHandedOver image path cmdline m fw h e)
  boot_read-IsHandedOver Read.unread path cmdline m fw h e = cc
  boot_read-IsHandedOver Read.out_of_fuel path cmdline m fw h e = cc

  -- Where `boot` comes to the call of the kernel, whatever the firmware gave before, the whole
  -- memory is as the kernel expects: the image read is a bzImage that passed the checks and stands
  -- in pages of the loader's, with zeros behind it; the page is exactly the one that `boot_params`
  -- describes; the string at the address in it is the command line, cut and terminated; and so is
  -- the initrd, which is left out only if none is named, it cannot be read or the firmware, in the
  -- state that it is left in, refuses the memory for it. None of these has been overwritten by what was stored later.
  pub boot-IsHandedOver :
      (kernel_path : Text) (path : Option Text) (cmdline : Text) (m : Memory) (fw : S)
      (h : Handover S)
      → boot fixed.allocate allocate_below file kernel_path path cmdline m fw ≡ done h
      → (image : List ℕ) × (file kernel_path ≡ whole image)
        × IsHandedOver low fixed file image path cmdline h
  unfolding boot
  boot-IsHandedOver kernel_path path cmdline m fw h e =
      boot_read-IsHandedOver (file kernel_path) path cmdline m fw h e
