-- ===== src/Linux/Reading.antt =====
-- src/linux.rs: `read_file`, over what the firmware answers.
pub mod Whole
use bang.Common.{
  ℕ, zero, suc, ◌+◌, ◌-◌, Bool, true, false, Option, none, some, List, [], ◌∷◌, ◌++◌, ltb, ◌==◌,
  if◌then◌else◌, length,
}
use bang.Common.Text.{Text}

-- The file's bytes, nothing, or the end of the fuel.
pub data Read : Type 0 where
  whole : List ℕ → Read
  unread out_of_fuel : Read

-- What stands after the loop, for the bytes that were read.
abbrev pub checked : ℕ → List ℕ → Read
checked size bytes = if length bytes == size then whole bytes else unread

module _ {F : Type 0} (read_some : F → ℕ → Option (List ℕ) × F) where
  -- The loop, on fuel.
  unfoldable pub read_rest : ℕ → ℕ → F → List ℕ → Read
  read_rest zero size f bytes = out_of_fuel
  read_rest (suc fuel) size f bytes =
      let answer = read_some f (size - length bytes) in
      elim (ltb (length bytes) size) [
        | false ↦ checked size bytes
        | true ↦ elim answer.0 [
          | none ↦ checked size bytes
          | some [] ↦ checked size bytes
          | some (b ∷ bs) ↦ read_rest fuel size answer.1 (bytes ++ b ∷ bs)
        ]
      ]

  -- A path gives the size of its file and a handle, if it opens as a regular file.
  unfoldable pub read_file : (Text → Option (ℕ × F)) → ℕ → Text → Read
  unfolding read_rest
  read_file open_file fuel path = elim (open_file path) [
    | none ↦ unread
    | some (size, f) ↦ read_rest fuel size f []
  ]
