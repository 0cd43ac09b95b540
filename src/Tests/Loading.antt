-- ===== src/Tests/Loading.antt =====
-- Runs of the loading of boot modules, from a directory that is a list.
use bang.Common.{
  ℕ, ◌≡◌, ◌≢◌, refl, inl, true, false, Option, none, some, List, [], ◌∷◌, ◌++◌, Bool-cases, inr,
  arith, if◌then◌else◌, write, fill, read,
}
use bang.Common.Text.{Text, codes, text_eq}
use bang.Modules.{ModuleInfo, store_name, write_name, to_ascii}
use bang.Modules.Loading.{
  File, not_opened, reads, Loaded, Loading, done, out_of_fuel, opened, load_modules, load_all,
  load_entry, load_file, read_module,
}
use bang.Modules.Loading.Endless.{load_modules-endless}
use bang.Uefi.{FileInfo}
use bang.Tests.Acpi.{give_below}
use bang.Tests.Directory.{listed, read_list}

abbrev names_at : ℕ
names_at = 0x10_0000

abbrev start : Loaded ℕ
start = record { modules = []; names = record { mem = λ a. 7; pos = 0 }; firmware = 0x10_0000 }

abbrev pub listing : List FileInfo
listing =
    record { file_name = codes "."; file_size = 0; is_directory = true; info_size = 84 }
    ∷ record { file_name = codes "vfs"; file_size = 2; is_directory = false; info_size = 88 }
    ∷ []

abbrev pub drivers : Text → File
drivers name = if text_eq name (codes "vfs") then reads (5 ∷ 6 ∷ []) else not_opened

pub drivers-opens : (name : Text) → drivers name ≢ File.read_fails
drivers-opens name = elim (Bool-cases (text_eq name (codes "vfs"))) [
  | inl same ↦ λ e. cc (e, opens_as same)
  | inr differs ↦ λ e. cc (e, missing_as differs)
]
  where
    opens_as : text_eq name (codes "vfs") ≡ true → drivers name ≡ reads (5 ∷ 6 ∷ [])
    opens_as same = rw same refl

    missing_as : text_eq name (codes "vfs") ≡ false → drivers name ≡ not_opened
    missing_as differs = rw differs refl

-- The module's address and size, and what stands there.
module_of : Loading (Loaded ℕ) → Option (List ModuleInfo × List ℕ × List ℕ)
module_of (done l) = some (l.modules, read 3 0xf_f000 l.names.mem, read 4 names_at l.names.mem)
module_of r = none

load_modules-listing :
    module_of (load_modules names_at give_below drivers read_list 3 (opened listing) start)
    ≡ some (
      record { name_ptr = names_at; phys_start = 0xf_f000; size = 2 } ∷ [],
      5 ∷ 6 ∷ 0 ∷ [],
      codes "vfs" ++ 0 ∷ [],
    )
unfolding module_of load_modules load_all load_entry load_file read_module store_name write_name
    to_ascii write fill text_eq
load_modules-listing = refl

abbrev long_name : FileInfo
long_name = record {
  file_name = codes "long";
  file_size = 9;
  is_directory = false;
  info_size = 600;
}

load_modules-endless_example :
    load_modules names_at give_below drivers read_list 1000 (opened (long_name ∷ listing)) start
    ≡ out_of_fuel
load_modules-endless_example =
    load_modules-endless listed names_at give_below drivers 1000 (long_name ∷ listing) long_name
      listing start refl (omega arith)
