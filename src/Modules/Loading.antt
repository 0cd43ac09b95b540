-- ===== src/Modules/Loading.antt =====
-- src/modules.rs: `load_modules`, over what the firmware answers. The name buffer stands at `at`.
pub mod Endless
pub mod Entry
pub mod Intact
pub mod Rounds
pub mod Stored
use bang.Common.{
  ℕ, zero, suc, ◌+◌, ◌*◌, ◌/◌, ◌%◌, ◌^◌, Bool, true, false, not, Option, none, some, List, [], ◌∷◌,
  ◌++◌, Memory, write, fill, ◌==◌, if◌then◌else◌, length, take,
}
use bang.Common.Text.{Text}
use bang.Modules.{ModuleInfo, NameBuffer, store_name}
use bang.Uefi.{FileInfo, ReadEntry, got, ended, failed, too_small}

-- A file of the directory: it does not open as a regular file, its read fails, or the bytes that a
-- read into a large enough buffer gives.
pub data File : Type 0 where
  not_opened read_fails : File
  reads : List ℕ → File

-- What is loaded so far, the names and memory, and the firmware.
pub record Loaded (S : Type 0) : Type 0 where
  pub modules : List ModuleInfo
  pub names : NameBuffer
  pub firmware : S

-- A result, the panic of an `expect`, or the end of the fuel.
pub data Loading (A : Type 0) : Type 0 where
  done : A → Loading A
  panics out_of_fuel : Loading A

infixl 5 ◌>>=◌
abbrev pub ◌>>=◌ : {A B : Type 0} → Loading A → (A → Loading B) → Loading B
done a >>= f = f a
panics >>= f = panics
out_of_fuel >>= f = out_of_fuel

-- `(file_size + 4095) / 4096`
abbrev pub pages_for : ℕ → ℕ
pages_for file_size = (file_size + 4095) % 2 ^ 64 / 4096

-- How the directory opens: not at all, as a file, with an error that panics, or as one.
pub data DirectoryHandle (D : Type 0) : Type 0 where
  missing regular_file unusable : DirectoryHandle D
  opened : D → DirectoryHandle D

module _ {S : Type 0} (at : ℕ) (allocate_below : ℕ → S → ℕ → Option (ℕ × S)) where
  -- The file's bytes in pages at `phys`, and the module that is pushed unless the read was short.
  unfoldable pub read_module : FileInfo → List ℕ → Loaded S → ℕ → S → Loaded S
  unfolding store_name
  read_module i bytes l phys firmware =
      let size = pages_for i.file_size * 4096 in
      let read_bytes = take size bytes in
      let zeroed = fill phys 0 size l.names.mem in
      let names : NameBuffer = record l.names { mem = write phys read_bytes zeroed } in
      let stored = store_name at (i.file_name ++ 0 ∷ []) names in
      let mi : ModuleInfo = record { name_ptr = stored.0; phys_start = phys; size = i.file_size } in
      if length read_bytes == i.file_size
      then record { modules = l.modules ++ mi ∷ []; names = stored.1; firmware = firmware }
      else record l { names = names; firmware = firmware }

  abbrev pub allocated : FileInfo → List ℕ → Loaded S → Option (ℕ × S) → Loading (Loaded S)
  allocated i bytes l none = done l
  allocated i bytes l (some (phys, firmware)) = done (read_module i bytes l phys firmware)

  abbrev unread : Loaded S → Option (ℕ × S) → Loading (Loaded S)
  unread l none = done l
  unread l (some (phys, firmware)) = panics

  unfoldable pub load_file : FileInfo → File → Loaded S → Loading (Loaded S)
  unfolding read_module allocated unread
  load_file i not_opened l = done l
  load_file i read_fails l =
      unread l (allocate_below 0xffff_ffff l.firmware (pages_for i.file_size))
  load_file i (reads bytes) l =
      allocated i bytes l (allocate_below 0xffff_ffff l.firmware (pages_for i.file_size))

  module _ (file : Text → File) where
    -- The body of the loop for an entry.
    unfoldable pub load_entry : FileInfo → Loaded S → Loading (Loaded S)
    unfolding load_file
    load_entry i l =
        if i.is_directory
        then done l
        else if i.file_size == 0
        then done l
        else load_file i (file i.file_name) l

    module _ {D : Type 0} (read_entry : D → ℕ → ReadEntry × D) where
      -- The loop, on fuel, with its buffer of 512 bytes.
      unfoldable pub load_all : ℕ → D → Loaded S → Loading (Loaded S)
      unfolding load_entry
      load_all zero d l = out_of_fuel
      load_all (suc fuel) d l =
          let (answer, d') = read_entry d 512 in
          elim answer [
            | got i ↦ load_entry i l >>= load_all fuel d'
            | ended ↦ done l
            | failed ↦ done l
            | too_small needed ↦ load_all fuel d' l
          ]

      unfoldable pub load_modules : ℕ → DirectoryHandle D → Loaded S → Loading (Loaded S)
      unfolding load_all
      load_modules fuel missing l = done l
      load_modules fuel regular_file l = done l
      load_modules fuel unusable l = panics
      load_modules fuel (opened d) l = load_all fuel d l
