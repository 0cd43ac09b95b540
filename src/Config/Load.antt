-- ===== src/Config/Load.antt =====
-- src/config.rs, `load`: `\bang.cfg` read and parsed, over what the firmware answers. `opened` is
-- what opening the file on the volume that Bang was loaded from gives, if it is a regular file: its
-- size and a handle.
pub mod Laws
use bang.Common.{ℕ, ◌*◌, Bool, ◌||◌, Option, none, some, List, ltb, ◌==◌, if◌then◌else◌, ◌>>=◌}
use bang.Common.Text.{Text}
use bang.Common.Text.Utf8.{from_utf8_from, from_utf8}
use bang.Config.{Config, parse}

-- A size that is not a configuration's.
abbrev pub is_unsuitable : ℕ → Bool
is_unsuitable size = size == 0 || ltb (64 * 1024) size

abbrev pub parsed_text : (Text → Option Text) → Option Text → Option Config
parsed_text path none = none
parsed_text path (some text) = some (parse path text)

module _ {F : Type 0} (path : Text → Option Text) (read_some : F → ℕ → Option (List ℕ) × F) where
  -- One read of the whole size; what it did not fill of the buffer is cut off.
  abbrev pub of_size : ℕ → F → Option Config
  of_size size f =
      if is_unsuitable size
      then none
      else ((read_some f size).0 >>= λ buf. parsed_text path (from_utf8 buf))

  unfoldable pub load : Option (ℕ × F) → Option Config
  unfolding parse from_utf8_from
  load opened = opened >>= λ (size, f). of_size size f
