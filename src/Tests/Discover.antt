-- ===== src/Tests/Discover.antt =====
-- Runs of the search for loaders.
use bang.Common.{
  ℕ, ◌-◌, ◌≡◌, refl, true, ◌&&◌, Option, none, some, List, [], ◌∷◌, arith, leb, if◌then◌else◌, All,
}
use bang.Common.Text.{Text, codes, text_eq}
use bang.Discover.{
  Found, windows, Opened, regular, absent, directory, Volume, exists, is_own, same_file, ends_with,
  to_ascii_uppercase, eq_ignore_ascii_case, pretty, offer, take_entry, read_all, probe, scan_all,
  scan,
}
use bang.Discover.Laws.{IsOnOne, scan-IsOnOne, scan_self}
use bang.Discover.Reading.{HasFuel, on_volumes, scan-on_volumes}
use bang.Tests.Directory.{read_list, listed}
use bang.Uefi.{FileInfo}

abbrev dir : Text → ℕ → FileInfo
dir t n = record { file_name = t; file_size = 0; is_directory = true; info_size = n }

-- Two names are too long for the buffer that the search begins with.
abbrev efi : List FileInfo
efi =
    dir (codes ".") 84
    ∷ dir (codes "Microsoft") 100
    ∷ dir (codes "fedora") 600
    ∷ dir (codes "BOOT") 90
    ∷ dir (codes "systemd") 700
    ∷ []

abbrev open_disk : Text → Opened (List FileInfo)
open_disk path =
    if text_eq path (codes "\\EFI")
    then directory efi
    else if text_eq path (codes "\\EFI\\fedora\\grubx64.efi")
    then regular
    else if text_eq path (codes "\\EFI\\fedora\\shimx64.efi")
    then regular
    else if text_eq path (codes "\\EFI\\BOOT\\BOOTX64.EFI")
    then regular
    else if text_eq path (codes "\\EFI\\systemd\\systemd-bootx64.efi")
    then regular
    else absent

abbrev disk : Volume (List FileInfo)
disk = record { device = 7; open_path = open_disk }

-- Bang is the fallback loader of the disk.
abbrev own : Option (ℕ × Text)
own = some (7, codes "\\efi\\boot\\bootx64.efi")

abbrev upper : ℕ → Text
upper c = (if leb b'a' c && leb c b'z' then c - 32 else c) ∷ []

abbrev found : List Found
found =
    record { title = codes "Fedora"; device = 7; path = codes "\\EFI\\fedora\\shimx64.efi" }
    ∷ record {
      title = codes "systemd-boot";
      device = 7;
      path = codes "\\EFI\\systemd\\systemd-bootx64.efi";
    }
    ∷ []

scan-disk : scan upper read_list own 11 (some (none ∷ some disk ∷ [])) ≡ some found
unfolding scan scan_all probe read_all take_entry offer exists is_own same_file ends_with
    to_ascii_uppercase eq_ignore_ascii_case pretty text_eq
scan-disk = refl

HasFuel-disk : All (HasFuel upper listed own 11) (none ∷ some disk ∷ [])
unfolding text_eq
HasFuel-disk = omega arith

scan-on_volumes_example :
    scan upper read_list own 11 (some (none ∷ some disk ∷ []))
    ≡ some (on_volumes upper listed own (none ∷ some disk ∷ []))
scan-on_volumes_example =
    scan-on_volumes upper listed own 11 (some (none ∷ some disk ∷ [])) HasFuel-disk

scan-IsOnOne_example :
    (out : List Found) × (scan upper read_list own 11 (some (none ∷ some disk ∷ [])) ≡ some out)
    × All (IsOnOne upper listed own (none ∷ some disk ∷ [])) out
scan-IsOnOne_example = scan-IsOnOne upper listed own 11 (some (none ∷ some disk ∷ [])) HasFuel-disk

-- A disk with nothing but Windows' path, which is where Bang is.
abbrev only_windows : Volume (List FileInfo)
only_windows = record {
  device = 7;
  open_path = λ path. if text_eq path windows then regular else absent;
}

windows-exists : exists only_windows windows ≡ true
unfolding exists text_eq
windows-exists = refl

windows-own : is_own (some (7, windows)) 7 windows ≡ true
unfolding is_own same_file ends_with to_ascii_uppercase text_eq
windows-own = refl

HasFuel-only_windows : All (HasFuel upper listed (some (7, windows)) 1) (some only_windows ∷ [])
unfolding text_eq
HasFuel-only_windows = omega arith

scan_self_example :
    (f : Found) × (out : List Found) × (scan upper read_list
        (some (7, windows))
        1
        (some (some only_windows ∷ []))
      ≡ some (f ∷ out))
    × (is_own (some (7, windows)) f.device f.path ≡ true)
scan_self_example =
    scan_self upper listed (some (7, windows)) 1 only_windows [] HasFuel-only_windows windows-exists
      windows-own
