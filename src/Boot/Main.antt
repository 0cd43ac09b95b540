-- ===== src/Boot/Main.antt =====
-- src/main.rs: `main` as a whole, over the answers of the firmware, which `World` collects.
pub mod Choice
pub mod Kernel
pub mod Image
use bang.Common.{
  ℕ, Bool, true, false, Option, none, some, List, [], ◌∷◌, Memory, if◌then◌else◌, ◌>>=◌,
}
use bang.Common.Text.{Text, codes}
use bang.Boot.{with_found, loaded_or_builtin, taken}
use bang.Boot.Kernel.{Entering, boot_kernel}
use bang.Chain.{PathBuilder, Images, Status, boot}
use bang.Config.{Target, multiboot, chainload, linux, Entry, Config}
use bang.Config.Load.{load}
use bang.Discover.{Found, Volume, scan}
use bang.Elf.{KernelInfo}
use bang.Elf.Kernel.{Panic, Load, ok, panic}
use bang.Elf.Kernel.File.{load_opened}
use bang.Elf.Segment.{Loader}
use bang.Gop.{Mode}
use bang.Linux.Boot.{Booting, Handover}
use bang.Linux.Reading.{read_file}
use bang.Menu.{Console, Key, Next, chosen, again, choose}
use bang.Modules.Loading.{
  File, Loaded, Loading, done, panics, out_of_fuel, DirectoryHandle, load_modules,
}
use bang.Multiboot.{MemoryDescriptor}
use bang.Multiboot.Acpi.{ConfigTableEntry}
use bang.Uefi.{ReadEntry}

-- The firmware's state is an `S`, its directories and files are `D`s and `F`s.
pub record World (S D F : Type 0) : Type 1 where
  -- `CString16::try_from`, and `char::to_uppercase`.
  pub path : Text → Option Text
  pub to_uppercase : ℕ → Text
  -- Files and directories of the volume that Bang was loaded from.
  pub open_file : Text → Option (ℕ × F)
  pub read_some : F → ℕ → Option (List ℕ) × F
  pub open_directory : Text → DirectoryHandle D
  pub file_in : Text → Text → File
  pub read_entry : D → ℕ → ReadEntry × D
  -- All volumes, and where Bang's own image is.
  pub volumes : Option (List (Option (Volume D)))
  pub own : Option (ℕ × Text)
  pub console : Console
  pub keys : List (Option Key)
  pub path_builder : PathBuilder
  pub images : Images
  pub allocate : S → ℕ → ℕ → Option S
  pub allocate_below : ℕ → S → ℕ → Option (ℕ × S)
  pub mode : Option Mode
  pub tables : List ConfigTableEntry
  pub memory_map : List MemoryDescriptor
  -- The address of the buffer of names, the loader's statics, and the fuel of every loop.
  pub names_at : ℕ
  pub loader : Loader S
  pub fuel : ℕ

-- How `main` ends, as far as the program goes.
pub data Ending (S : Type 0) : Type 0 where
  -- what a chainloaded image, or the attempt to start one, returned
  chained : Status → Ending S
  handed : Booting (Handover S) → Ending S
  entering : Entering → Ending S
  kernel_panics : Panic → Ending S
  modules_panic no_entry : Ending S
  -- the menu is still waiting for a key, or a loop is out of fuel
  waiting unfinished : Ending S

module _ {S D F : Type 0} (w : World S D F) where
  -- A directory's modules, or none.
  abbrev pub modules_of : Option Text → Loader S → Loading (Loaded S)
  modules_of none l =
      done (record { modules = []; names = record { mem = l.mem; pos = 0 }; firmware = l.firmware })
  modules_of (some dir) l =
      load_modules w.names_at w.allocate_below (w.file_in dir) w.read_entry w.fuel
        (w.open_directory dir)
        (record { modules = []; names = record { mem = l.mem; pos = 0 }; firmware = l.firmware })

  abbrev pub with_modules : KernelInfo → Loading (Loaded S) → Ending S
  with_modules k panics = modules_panic
  with_modules k out_of_fuel = unfinished
  with_modules k (done m) =
      entering (
        boot_kernel w.allocate_below k m.modules w.mode w.tables w.memory_map m.names.mem
          m.firmware)

  abbrev pub with_kernel : Option Text → Load (KernelInfo × Loader S) → Ending S
  with_kernel modules_path (panic p) = kernel_panics p
  with_kernel modules_path (ok (k, l)) = with_modules k (modules_of modules_path l)

  -- The `match` on the target, and for a Multiboot kernel what follows it.
  unfoldable pub start : Target → Ending S
  unfolding load_opened load_modules boot_kernel boot read_file
  start (multiboot kernel modules) =
      with_kernel modules (load_opened w.read_some w.allocate (w.open_file kernel) w.loader)
  start (chainload p device) = chained (boot w.path_builder w.images device p)
  start (linux kernel initrd cmdline) = handed (
      bang.Linux.Boot.boot w.allocate w.allocate_below (read_file w.read_some w.open_file w.fuel)
        kernel initrd cmdline w.loader.mem w.loader.firmware)

  abbrev pub start_taken : Option Entry → Ending S
  start_taken none = no_entry
  start_taken (some e) = start e.target

  abbrev pub start_chosen : Config → Next → Ending S
  start_chosen cfg (chosen i) = start_taken (taken cfg i)
  start_chosen cfg (again s) = waiting

  -- The volumes are scanned only where that is wanted.
  abbrev pub scanned : Config → Option (List Found)
  scanned cfg =
      if cfg.autodetect then scan w.to_uppercase w.read_entry w.own w.fuel w.volumes else some []

  abbrev pub start_offered : Config → Option (List Found) → Ending S
  start_offered cfg none = unfinished
  start_offered cfg (some found) =
      start_chosen (with_found cfg found) (choose w.console (with_found cfg found) w.keys).1

  abbrev pub start_configured : Config → Ending S
  start_configured cfg = start_offered cfg (scanned cfg)

  unfoldable pub main : Ending S
  unfolding start choose taken scan load
  main =
      start_configured
        (loaded_or_builtin (load w.path w.read_some (w.open_file (codes "\\bang.cfg"))))
