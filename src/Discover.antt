-- ===== src/Discover.antt =====
-- src/discover.rs: the search for installed loaders. A volume answers what a path on it names;
-- paths are code units, device handles are numbers, and `to_uppercase` is that of a `char`.
pub mod Laws
pub mod Offer
pub mod Reading
use bang.Common.{
  ℕ, zero, suc, ◌-◌, Bool, true, false, not, ◌&&◌, ◌||◌, Option, none, some, ◌>>=◌, List, [], ◌∷◌,
  ◌++◌, map, leb, ◌==◌, if◌then◌else◌, length, drop,
}
use bang.Common.Text.{Text, codes, text_eq}
use bang.Uefi.{FileInfo, ReadEntry, got, ended, failed, too_small}

pub record Found : Type 0 where
  pub title : Text
  pub device : ℕ
  pub path : Text

abbrev pub windows : Text
windows = codes "\\EFI\\Microsoft\\Boot\\bootmgfw.efi"

-- `LOADERS`
abbrev pub loaders : List Text
loaders =
    codes "shimx64.efi"
    ∷ codes "grubx64.efi"
    ∷ codes "systemd-bootx64.efi"
    ∷ codes "refind_x64.efi"
    ∷ codes "BOOTX64.EFI"
    ∷ []

-- `root.open(…)` with `into_type()`: a file, a directory, or an error of either.
pub data Opened (D : Type 0) : Type 0 where
  regular absent : Opened D
  directory : D → Opened D

-- A handle with the volume that opened on it.
pub record Volume (D : Type 0) : Type 0 where
  pub device : ℕ
  pub open_path : Text → Opened D

abbrev pub is_regular : {D : Type 0} → Opened D → Bool
is_regular regular = true
is_regular absent = false
is_regular (directory d) = false

unfoldable pub exists : {D : Type 0} → Volume D → Text → Bool
exists v path = is_regular (v.open_path path)

unfoldable pub to_ascii_uppercase : Text → Text
to_ascii_uppercase [] = []
to_ascii_uppercase (c ∷ s) = (if leb b'a' c && leb c b'z' then c - 32 else c) ∷ to_ascii_uppercase s

unfoldable pub eq_ignore_ascii_case : Text → Text → Bool
unfolding to_ascii_uppercase text_eq
eq_ignore_ascii_case s t = text_eq (to_ascii_uppercase s) (to_ascii_uppercase t)

unfoldable pub ends_with : Text → Text → Bool
unfolding text_eq
ends_with s t = leb (length t) (length s) && text_eq (drop (length s - length t) s) t

unfoldable pub same_file : Text → Text → Bool
unfolding ends_with to_ascii_uppercase
same_file device_path file = ends_with (to_ascii_uppercase device_path) (to_ascii_uppercase file)

-- Whether this path on this device is where Bang was loaded from: `own.is_some_and(…)`.
unfoldable pub is_own : Option (ℕ × Text) → ℕ → Text → Bool
unfolding same_file
is_own none device path = false
is_own (some (d, p)) device path = d == device && same_file p path

abbrev capitalised : (ℕ → Text) → Text → Text
capitalised to_uppercase [] = []
capitalised to_uppercase (first ∷ chars) = to_uppercase first ++ chars

-- "\EFI\", the directory, "\" and the loader.
abbrev pub loader_path : Text → Text → Text
loader_path vendor loader = codes "\\EFI\\" ++ (vendor ++ (codes "\\" ++ loader))

-- Names of directories that are not looked into.
abbrev pub is_skipped : Text → Bool
is_skipped name =
    text_eq name (codes ".") || (text_eq name (codes "..") || text_eq name (codes "Microsoft"))

abbrev pub pushed : Option Found → List Found → List Found
pushed none out = out
pushed (some f) out = out ++ f ∷ []

-- `let Ok(handles) = … else { return out }`
abbrev pub or_empty : {D : Type 0} → Option (List (Option (Volume D))) → List (Option (Volume D))
or_empty none = []
or_empty (some vs) = vs

module _ (to_uppercase : ℕ → Text) where
  unfoldable pub pretty : Text → Text → Text
  unfolding eq_ignore_ascii_case capitalised
  pretty vendor loader =
      if eq_ignore_ascii_case loader (codes "systemd-bootx64.efi")
      then codes "systemd-boot"
      else if eq_ignore_ascii_case loader (codes "refind_x64.efi")
      then codes "rEFInd"
      else if eq_ignore_ascii_case vendor (codes "BOOT")
      then codes "EFI default loader"
      else capitalised to_uppercase vendor

  module _ {D : Type 0} (own : Option (ℕ × Text)) (v : Volume D) where
    -- `for loader in LOADERS`: at most one loader of a directory.
    unfoldable pub offer : Text → List Text → Option Found
    unfolding exists
    offer vendor [] = none
    offer vendor (loader ∷ rest) =
        let path = loader_path vendor loader in
        let later = offer vendor rest in
        if not (exists v path)
        then later
        else if is_own own v.device path
        then none
        else some record { title = pretty vendor loader; device = v.device; path = path }

    -- What the body of the loop does with an entry.
    unfoldable pub take_entry : FileInfo → List Found → List Found
    unfolding offer
    take_entry i out =
        if not i.is_directory
        then out
        else if is_skipped i.file_name
        then out
        else pushed (offer i.file_name loaders) out

    module _ (read_entry : D → ℕ → ReadEntry × D) where
      -- The loop over the directory, on fuel, with the buffer's length.
      unfoldable pub read_all : ℕ → ℕ → D → List Found → Option (List Found)
      unfolding take_entry
      read_all zero n d out = none
      read_all (suc fuel) n d out =
          let (answer, d') = read_entry d n in
          elim answer [
            | got i ↦ read_all fuel n d' (take_entry i out)
            | ended ↦ some out
            | failed ↦ some out
            | too_small none ↦ some out
            | too_small (some needed) ↦ read_all fuel needed d' out
          ]

      unfoldable pub probe : ℕ → List Found → Option (List Found)
      unfolding read_all exists
      probe fuel out =
          let out' =
            if exists v windows
            then out
              ++ record { title = codes "Windows Boot Manager"; device = v.device; path = windows }
                ∷ []
            else out in
          elim (v.open_path (codes "\\EFI")) [
            | regular ↦ some out'
            | absent ↦ some out'
            | directory efi ↦ read_all fuel 512 efi out'
          ]

  -- The loop of `scan` over the handles; `none` is a volume that does not open.
  unfoldable pub scan_all :
      {D : Type 0}
      → (D → ℕ → ReadEntry × D)
      → Option (ℕ × Text)
      → ℕ
      → List (Option (Volume D))
      → List Found
      → Option (List Found)
  unfolding probe
  scan_all read_entry own fuel [] out = some out
  scan_all read_entry own fuel (none ∷ vs) out = scan_all read_entry own fuel vs out
  scan_all read_entry own fuel (some v ∷ vs) out =
      probe own v read_entry fuel out >>= λ out'. scan_all read_entry own fuel vs out'

  -- `scan`, with what `locate_handle_buffer` answered.
  unfoldable pub scan :
      {D : Type 0}
      → (D → ℕ → ReadEntry × D)
      → Option (ℕ × Text)
      → ℕ
      → Option (List (Option (Volume D)))
      → Option (List Found)
  unfolding scan_all
  scan read_entry own fuel handles = scan_all read_entry own fuel (or_empty handles) []
