-- ===== src/Config/Print.antt =====
-- A printed form of a configuration, which src/config.rs reads back, and the configurations that
-- can be printed: a directive and its argument on each line.
pub mod Numbers
pub mod Step
pub mod Entries
pub mod Reading
pub mod RoundTrip
pub mod Bounds
pub mod SoFar
pub mod Normal
use bang.Common.{
  ℕ, ◌+◌, ◌<◌, ◌^◌, ◌≡◌, ◌≢◌, Bool, true, false, Option, none, some, List, [], ◌∷◌, ◌++◌, All,
  if◌then◌else◌, length,
}
use bang.Common.Text.{Text, codes, is_nil}
use bang.Common.Text.Trim.{IsTrimmed}
use bang.Common.Text.Lines.{IsOneLine, unlines}
use bang.Config.{Target, Entry, Config}
use bang.Config.Laws.{DefaultIsValid}
use bang.Menu.{push_num}

abbrev pub directive_line : Text → Text → Text
directive_line d arg = if is_nil arg then d else d ++ 32 ∷ arg

abbrev pub option_lines : Text → Option Text → List Text
option_lines d none = []
option_lines d (some arg) = directive_line d arg ∷ []

abbrev pub target_lines : Target → List Text
target_lines (Target.multiboot kernel modules) =
    directive_line (codes "multiboot") kernel ∷ option_lines (codes "modules") modules
target_lines (Target.chainload path device) = directive_line (codes "chainload") path ∷ []
target_lines (Target.linux kernel initrd cmdline) =
    directive_line (codes "linux") kernel
    ∷ (option_lines (codes "initrd") initrd ++ directive_line (codes "options") cmdline ∷ [])

abbrev pub lines_of_entry : Entry → List Text
lines_of_entry e = directive_line (codes "entry") e.title ∷ target_lines e.target

abbrev pub lines_of_entries : List Entry → List Text
lines_of_entries [] = []
lines_of_entries (e ∷ es) = lines_of_entry e ++ lines_of_entries es

abbrev pub on_off : Bool → Text
on_off true = codes "on"
on_off false = codes "off"

unfoldable pub printed_lines : Config → List Text
unfolding push_num
printed_lines c =
    directive_line (codes "timeout") (push_num [] c.timeout)
    ∷ directive_line (codes "autodetect") (on_off c.autodetect)
    ∷ directive_line (codes "default") (push_num [] c.default)
    ∷ lines_of_entries c.entries

unfoldable pub print : Config → Text
unfolding printed_lines unlines
print c = unlines (printed_lines c)

-- What can stand as the argument of a directive: one line without a comment's sign, and with no
-- white space at either end.
pub record IsArg (s : Text) : Type 0 where
  pub no_comment : All (λ c. c ≢ b'#') s
  pub one_line : IsOneLine s
  pub is_trimmed : IsTrimmed s

module _ (path : Text → Option Text) where
  -- A path that the firmware's strings take as it is.
  pub record IsPath (p : Text) : Type 0 where
    pub is_arg : IsArg p
    pub is_taken : path p ≡ some p

  abbrev pub IsOptionalPath : Option Text → Type 0
  IsOptionalPath none = Unit
  IsOptionalPath (some p) = IsPath p

  -- A chainloaded path names no device: a file has no way to write one down.
  abbrev pub IsPrintableTarget : Target → Type 0
  IsPrintableTarget (Target.multiboot kernel modules) =
      IsPath kernel × (is_nil kernel ≡ false) × IsOptionalPath modules
  IsPrintableTarget (Target.chainload p device) = IsPath p × (device ≡ none)
  IsPrintableTarget (Target.linux kernel initrd cmdline) =
      IsPath kernel × IsOptionalPath initrd × IsArg cmdline

  pub record IsPrintableEntry (e : Entry) : Type 0 where
    pub has_title : IsArg e.title
    pub has_target : IsPrintableTarget e.target

  pub record IsPrintable (c : Config) : Type 0 where
    pub timeout_word : c.timeout < 2 ^ 64
    pub default_word : c.default < 2 ^ 64
    pub default_valid : DefaultIsValid c
    pub all_entries : All IsPrintableEntry c.entries
