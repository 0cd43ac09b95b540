-- ===== src/Boot/Main/Kernel.antt =====
-- src/main.rs: a Multiboot 2 entry with a directory of modules, from its files to the jump.
use bang.Common.{
  ℕ, ◌+◌, ◌≤◌, ◌<◌, true, ◌⊎◌, arith, ◌≡◌, refl, sym, ap, subst, ◌∙◌, inl, inr, Option, none, some,
  List, [], All, Memory, length, Option-cases,
}
use bang.Common.Text.{Text}
use bang.Boot.{enter}
use bang.Boot.Information.{load_modules-build_mb2_info}
use bang.Boot.Kernel.{
  Entering, out_of_resources, calls, boot_kernel, boot_kernel-Holds, find_rsdp-HasBytes,
}
use bang.Boot.Main.{World, entering, with_modules, with_kernel, modules_of, start}
use bang.Config.{multiboot}
use bang.Elf.{KernelInfo}
use bang.Elf.Kernel.{ok}
use bang.Elf.Kernel.File.{load_opened}
use bang.Elf.Segment.{Loader}
use bang.Gop.{Mode, query_gop}
use bang.Modules.Loading.{File, Loaded, done, opened, load_modules}
use bang.Modules.Loading.Entry.{AreLoaded}
use bang.Modules.{cap}
use bang.Modules.Loading.Intact.{HasNames, IsLater}
use bang.Modules.Loading.Rounds.{IsReadable, load_modules-HasLoaded}
use bang.Multiboot.{MemoryDescriptor, info_pages}
use bang.Multiboot.Acpi.{ConfigTableEntry, find_rsdp}
use bang.Multiboot.Buffer.{Holds}
use bang.Multiboot.Mb2.Names.{infos}
use bang.Multiboot.Mb2.Tags.{Named, encode_info, sent_tags, total_size}
use bang.Multiboot.Reserve.{reserve}
use bang.Uefi.{DirectoryReader, LowMemory}
use bang.Uefi.Pages.{owned_outside}

-- The loader's state when the modules' turn comes.
abbrev pub before_modules : {S : Type 0} → Loader S → Loaded S
before_modules l = record {
  modules = [];
  names = record { mem = l.mem; pos = 0 };
  firmware = l.firmware;
}

-- How `main` ends for a Multiboot 2 kernel, with what was loaded before: with no memory for the
-- information, or at the call of the trampoline or the handoff, with the address of a region that holds the encoded tags of the
-- memory map, the framebuffer, exactly the loaded modules, and the ACPI root pointer; and then what
-- was the loader's own memory before the modules, the kernel's segments among it, is as it was, but
-- for the buffer of names at `at`.
pub data IsBooted (low : LowMemory) (at : ℕ) (before : Loaded low.S) (k : KernelInfo)
    (mode : Option Mode) (tables : List ConfigTableEntry) (ds : List MemoryDescriptor)
    (last : Loaded low.S) : Entering → Type 0 where
  no_room :
      reserve low.allocate_below last.firmware ≡ none
      → IsBooted low at before k mode tables ds last out_of_resources
  in_kernel :
      (base : ℕ) (s' : low.S) (nms : List Named) (m' : Memory)
      → reserve low.allocate_below last.firmware ≡ some (base, s')
      → infos nms ≡ last.modules
      → Holds base
          (total_size (sent_tags ds (query_gop mode) nms (find_rsdp tables last.names.mem)))
          (encode_info (sent_tags ds (query_gop mode) nms (find_rsdp tables last.names.mem)))
          last.names.mem
          m'
      → ((a : ℕ)
          → low.owned before.firmware a ≡ true
          → (a < at) ⊎ (at + cap ≤ a)
          → m' a ≡ before.names.mem a)
      → IsBooted low at before k mode tables ds last (calls (enter k) base m')

boot_kernel-no_room :
    (low : LowMemory) (k : KernelInfo) (mode : Option Mode) (tables : List ConfigTableEntry)
    (ds : List MemoryDescriptor) (last : Loaded low.S)
    → reserve low.allocate_below last.firmware ≡ none
    → boot_kernel low.allocate_below k last.modules mode tables ds last.names.mem last.firmware
      ≡ out_of_resources
unfolding boot_kernel
boot_kernel-no_room low k mode tables ds last none_left = rw none_left refl

kept :
    (low : LowMemory) (at : ℕ) (l last : Loaded low.S) (s' : low.S) (base : ℕ) {pos : ℕ}
    {bs : List ℕ} {m' : Memory}
    → l.names.pos ≡ 0
    → IsLater low at l last
    → reserve low.allocate_below last.firmware ≡ some (base, s')
    → Holds base pos bs last.names.mem m'
    → (a : ℕ) → low.owned l.firmware a ≡ true
    → (a < at) ⊎ (at + cap ≤ a)
    → m' a ≡ l.names.mem a
unfolding reserve
kept low at l last s' base first later given holds a mine apart =
    let away =
      owned_outside low 0xffff_ffff last.firmware s' info_pages base a given (later.keeps a mine) in
    holds.frame a away
    ∙ later.same a mine (elim apart [ inl lower ↦ inl (omega arith) | inr behind ↦ inr behind ])

-- After the modules of a directory, whatever memory is left below 4 GiB.
boot_kernel-IsBooted :
    (low : LowMemory) (dir : DirectoryReader) (at : ℕ) (file : Text → File) (fuel : ℕ) (d : dir.D)
    (l last : Loaded low.S) (k : KernelInfo) (mode : Option Mode) (tables : List ConfigTableEntry)
    (ds : List MemoryDescriptor)
    → k.mb_version ≡ 2
    → l.modules ≡ []
    → l.names.pos ≡ 0
    → HasNames low at l
    → All (IsReadable low at file dir) (dir.contents d)
    → length (dir.contents d) < fuel
    → load_modules at low.allocate_below file dir.read_entry fuel (opened d) l ≡ done last
    → IsLater low at l last
    → IsBooted low at l k mode tables ds last
        (boot_kernel low.allocate_below k last.modules mode tables ds last.names.mem last.firmware)
boot_kernel-IsBooted low dir at file fuel d l last k mode tables ds v empty first n readable enough
      e later =
    elim (Option-cases (reserve low.allocate_below last.firmware)) [
      | inl none_left ↦
          subst (IsBooted low at l k mode tables ds last)
            (sym (boot_kernel-no_room low k mode tables ds last none_left)) (no_room none_left)
      | inr ((base, s'), given) ↦
          let rsdp = find_rsdp tables last.names.mem in
          let (loaded, nms, same, names, m0, built, there) =
            load_modules-build_mb2_info low dir at file fuel d l last s' base ds (query_gop mode)
              rsdp empty n readable enough e given (find_rsdp-HasBytes tables last.names.mem) in
          let (m', enters, holds) =
            boot_kernel-Holds low last.firmware s' base k nms mode tables ds last.names.mem v given
              names in
          let result =
            ap
              (λ ms.
                boot_kernel low.allocate_below k ms mode tables ds last.names.mem last.firmware)
              (sym same)
            ∙ enters in
          subst (IsBooted low at l k mode tables ds last) (sym result) (
            in_kernel base s' nms m' given same holds
              (kept low at l last s' base first later given holds))
    ]

-- A Multiboot 2 entry with a directory of modules, whose kernel loads, and whose directory opens,
-- has entries that fit the buffer, files that can be read, and fewer entries than there is fuel,
-- with the buffer of names in the loader's own memory: each file of the directory is loaded, or
-- passed over for a reason that holds when its turn comes, and `main` comes to the call of the
-- trampoline or the handoff, before the trampoline copies itself to 0x1000, with the information on
-- exactly these modules, and with every byte that was the loader's own before them, outside the
-- buffer of names, as it was; or it returns because the firmware, in the state that the modules have
-- left, refuses the pages for the information.
pub start-IsBooted :
    {F : Type 0} (low : LowMemory) (dir : DirectoryReader) (w : World low.S dir.D F)
    (kernel path : Text) (k : KernelInfo) (l : Loader low.S) (d : dir.D)
    → w.allocate_below ≡ low.allocate_below
    → w.read_entry ≡ dir.read_entry
    → load_opened w.read_some w.allocate (w.open_file kernel) w.loader ≡ ok (k, l)
    → k.mb_version ≡ 2
    → w.open_directory path ≡ opened d
    → HasNames low w.names_at (before_modules l)
    → All (IsReadable low w.names_at (w.file_in path) dir) (dir.contents d)
    → length (dir.contents d) < w.fuel
    → (last : Loaded low.S) × (result : Entering) × (start w (multiboot kernel (some path))
        ≡ entering result)
      × AreLoaded low w.names_at
          (w.file_in path)
          last
          l.firmware
          (dir.contents d)
          last.modules
          last.firmware
      × IsBooted low w.names_at (before_modules l) k w.mode w.tables w.memory_map last result
unfolding start
start-IsBooted low dir w kernel path k l d gives reads loads v opens n readable fuel =
    let l0 = before_modules l in
    let file = w.file_in path in
    let r = load_modules-HasLoaded low w.names_at file dir w.fuel d l0 readable fuel n in
    let modules : modules_of w (some path) l ≡ done r.last =
      ap (λ ab. load_modules w.names_at ab file w.read_entry w.fuel (w.open_directory path) l0)
        gives
      ∙ ap
          (λ re.
            load_modules w.names_at low.allocate_below file re w.fuel (w.open_directory path) l0)
          reads
      ∙ ap (λ o. load_modules w.names_at low.allocate_below file dir.read_entry w.fuel o l0) opens
      ∙ r.result in
    let result : Entering =
      boot_kernel low.allocate_below k r.last.modules w.mode w.tables w.memory_map r.last.names.mem
        r.last.firmware in
    (
      r.last,
      result,
      ap (with_kernel w (some path)) loads
          ∙ ap (with_modules w k) modules
          ∙ ap
              (λ ab. entering (
                boot_kernel ab k r.last.modules w.mode w.tables w.memory_map r.last.names.mem
                  r.last.firmware))
              gives,
      subst
          (λ ms.
            AreLoaded low w.names_at file r.last l.firmware (dir.contents d) ms r.last.firmware)
          (sym r.modules) r.are_loaded,
      boot_kernel-IsBooted low dir w.names_at file w.fuel d l0 r.last k w.mode w.tables w.memory_map
          v refl refl n readable fuel r.result r.later,
    )
