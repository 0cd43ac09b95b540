-- ===== src/Tests/Main.antt =====
-- Runs of `main` as a whole: a configuration of two entries, whose default is a Multiboot 2 kernel
-- with a directory of modules.
use bang.Common.{
  ℕ, ◌≤◌, ◌<◌, ◌≡◌, inr, take, drop, write_away, fill_outside, refl, ap, ◌∙◌, inl, Option, none,
  some, List, [], ◌∷◌, arith, if◌then◌else◌, length, get_elem?,
}
use bang.Common.Text.{Text, codes, text_eq}
use bang.Boot.Kernel.{Entering}
use bang.Boot.Main.{World, entering, start, main}
use bang.Boot.Main.Choice.{main-print, main_unattended}
use bang.Boot.Machine.{at_call, IsPlaced-keeps}
use bang.Trampoline.Left.{IsPlaced}
use bang.Tests.Trampoline.{layout, here, piece, machine, machine-IsPlaced}
use bang.Boot.Main.Image.{IsKeptPiece, IsInPlace, start-IsInPlace}
use bang.Boot.Main.Kernel.{before_modules, IsBooted, start-IsBooted}
use bang.Config.{Entry, multiboot}
use bang.Config.Load.{load}
use bang.Elf.Detect.{detect_multiboot_version, scan, mb2_at, mb1_at}
use bang.Elf.{u32_at}
use bang.Elf.Kernel.{ok, load_kernel, load_class, load_segments}
use bang.Elf.Kernel.File.{IsLoadedFrom, read_kernel, load_opened, load_opened-IsLoadedFrom}
use bang.Elf.Segment.{
  Loader, load_segment, claim_pages, run_pages, page_allocated, record_allocation, place,
  is_malformed,
}
use bang.Modules.Loading.{Loaded, missing, opened}
use bang.Modules.Loading.Entry.{AreLoaded}
use bang.Modules.Loading.Intact.{HasNames}
use bang.Uefi.{FileInfo}
use bang.Tests.Acpi.{falling, give_below}
use bang.Tests.Chain.{builder, images}
use bang.Tests.Config.{any_path}
use bang.Tests.Directory.{listed, read_list}
use bang.Tests.Elf.{kernel, kernel_file, kernel_file-HasRoom}
use bang.Tests.Files.{read_asked, listed_file}
use bang.Tests.Handover.{give_at, pinned}
use bang.Tests.Loading.{listing, drivers, drivers-opens}
use bang.Tests.Menu.{screen}
use bang.Tests.Multiboot.{descriptors}
use bang.Tests.Print.{
  quark, two_entries, two_entries-IsPrintable, two_entries-AreCharacters, config_file,
  read-config_file, load-two_entries,
}

abbrev files : Text → Option (ℕ × List ℕ)
files name =
    if text_eq name (codes "\\bang.cfg")
    then some (106, config_file)
    else if text_eq name (codes "\\k")
    then some (length kernel_file, kernel_file)
    else none

abbrev first : Loader ℕ
first = record { records = []; firmware = 0x10_2000; mem = piece }

abbrev world : World ℕ (List FileInfo) (List ℕ)
world = record {
  path = any_path;
  to_uppercase = λ c. c ∷ [];
  open_file = files;
  read_some = read_asked;
  open_directory = λ dir. if text_eq dir (codes "\\d") then opened listing else missing;
  file_in = λ dir. drivers;
  read_entry = read_list;
  volumes = none;
  own = none;
  console = screen;
  keys = [];
  path_builder = builder;
  images = images;
  allocate = give_at;
  allocate_below = give_below;
  mode = none;
  tables = [];
  memory_map = descriptors;
  names_at = 0x20_0000;
  loader = first;
  fuel = 9;
}

opens-config : files (codes "\\bang.cfg") ≡ some (106, config_file)
unfolding text_eq
opens-config = refl

main-print_example : main world ≡ start world quark.target
main-print_example =
    main-print listed_file world two_entries quark [] 106 0 config_file [] refl
      two_entries-IsPrintable two_entries-AreCharacters (omega arith) (omega arith) opens-config
      read-config_file refl refl refl (omega arith)

loads-config : load any_path read_asked (files (codes "\\bang.cfg")) ≡ some two_entries
loads-config = ap (load any_path read_asked) opens-config ∙ load-two_entries

main_unattended_example :
    (e : Entry) × (get_elem? two_entries.entries 1 ≡ some e) × (main world ≡ start world e.target)
main_unattended_example =
    main_unattended listed_file world two_entries [] 0 refl loads-config (λ e. cc) refl refl
      (omega arith)

opens-kernel : files (codes "\\k") ≡ some (length kernel_file, kernel_file)
unfolding text_eq
opens-kernel = refl

abbrev kernel_loaded : Loader ℕ
kernel_loaded = record {
  records = (0x10_0000, 2) ∷ [];
  firmware = 0x10_0000;
  mem = place 0x10_0800 5000 kernel_file 104 8 first.mem;
}

loads-bytes : load_kernel give_at kernel_file first ≡ ok (kernel, kernel_loaded)
unfolding load_kernel load_class load_segments load_segment claim_pages run_pages page_allocated
    record_allocation is_malformed detect_multiboot_version scan mb2_at mb1_at u32_at
loads-bytes = refl

loads-kernel :
    load_opened read_asked give_at (files (codes "\\k")) first ≡ ok (kernel, kernel_loaded)
unfolding text_eq load_opened read_kernel load_kernel load_class load_segments load_segment
    claim_pages run_pages page_allocated record_allocation is_malformed detect_multiboot_version
    scan mb2_at mb1_at u32_at
loads-kernel = refl

load_opened-IsLoadedFrom_example :
    (size : ℕ) × (f : List ℕ) × (files (codes "\\k") ≡ some (size, f))
    × IsLoadedFrom listed_file size f give_at first kernel kernel_loaded
load_opened-IsLoadedFrom_example =
    load_opened-IsLoadedFrom listed_file give_at (files (codes "\\k")) first kernel kernel_loaded
      loads-kernel

opens-modules :
    (if text_eq (codes "\\d") (codes "\\d") then opened listing else missing) ≡ opened listing
unfolding text_eq
opens-modules = refl

kernel_loaded-HasNames : HasNames falling 0x20_0000 (before_modules kernel_loaded)
kernel_loaded-HasNames = record {
  buffer = record { within = omega arith; terminated = inl refl };
  owned_names = λ a lo hi. ground arith;
}

start-IsBooted_example :
    (last : Loaded ℕ) × (result : Entering) × (start world
        (multiboot (codes "\\k") (some (codes "\\d")))
      ≡ entering result)
    × AreLoaded falling 0x20_0000 drivers last kernel_loaded.firmware listing last.modules
        last.firmware
    × IsBooted falling 0x20_0000
        (before_modules kernel_loaded)
        kernel
        none
        []
        descriptors
        last
        result
start-IsBooted_example =
    start-IsBooted falling listed world (codes "\\k") (codes "\\d") kernel kernel_loaded listing
      refl refl loads-kernel refl opens-modules kernel_loaded-HasNames
      ((omega arith, drivers-opens (codes ".")), ((omega arith, drivers-opens (codes "vfs")), tt))
      (omega arith)

kept-piece : (a : ℕ) → 0x30_0000 ≤ a → a < 0x30_00b2 → kernel_loaded.mem a ≡ piece a
unfolding place
kept-piece a lo hi =
    fill_outside 0x10_0808 0 4992 _ a (inr (omega arith))
    ∙ write_away 0x10_0800 (take 8 (drop 104 kernel_file)) piece a (inr (omega arith))

placed-trampoline : IsPlaced layout here (at_call machine kernel_loaded.mem)
placed-trampoline =
    IsPlaced-keeps layout here machine piece kernel_loaded.mem kept-piece machine-IsPlaced

kept-IsKeptPiece : IsKeptPiece falling kernel_loaded.firmware 0x20_0000 layout here
kept-IsKeptPiece = (inr (omega arith), λ a lo hi. ground arith)

start-IsInPlace_example :
    (last : Loaded ℕ) × (result : Entering) × (start world
        (multiboot (codes "\\k") (some (codes "\\d")))
      ≡ entering result)
    × AreLoaded falling 0x20_0000 drivers last kernel_loaded.firmware listing last.modules
        last.firmware
    × IsInPlace falling last.firmware kernel_file 0x20_0000 kernel layout here machine result
start-IsInPlace_example =
    start-IsInPlace falling pinned listed world (codes "\\k") (codes "\\d") kernel kernel_loaded
      listing (length kernel_file) kernel_file kernel_file layout here machine refl refl refl
      opens-kernel refl refl (omega arith) refl loads-bytes kernel_file-HasRoom refl opens-modules
      kernel_loaded-HasNames
      ((omega arith, drivers-opens (codes ".")), ((omega arith, drivers-opens (codes "vfs")), tt))
      (omega arith) placed-trampoline kept-IsKeptPiece
