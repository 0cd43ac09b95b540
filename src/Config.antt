-- ===== src/Config.antt =====
-- src/config.rs: the entries, and the parser of `\bang.cfg`. Text is code points; a path is the
-- code units of a `CString16`, which `CString16::try_from` of the `uefi` crate makes, a parameter.
pub mod Laws
pub mod Print
pub mod Load
use bang.Common.{
  ℕ, ◌+◌, ◌≤◌, Bool, true, false, not, ◌||◌, Option, none, some, List, [], ◌∷◌, ◌++◌, ltb, leb,
  if◌then◌else◌, length, is_some,
}
use bang.Common.Text.{
  Text, codes, is_nil, text_eq, trim, first_word, after_word, before, lines, parse_u64,
}

pub data Target : Type 0 where
  multiboot : Text → Option Text → Target
  chainload : Text → Option ℕ → Target
  linux : Text → Option Text → Text → Target

pub record Entry : Type 0 where
  pub title : Text
  pub target : Target

pub record Config : Type 0 where
  pub timeout : ℕ
  pub default : ℕ
  pub entries : List Entry
  pub autodetect : Bool

-- `Config::builtin()`
unfoldable pub builtin : Config
builtin = record {
  timeout = 0;
  default = 0;
  autodetect = true;
  entries =
      record {
        title = codes "Quark";
        target = multiboot (codes "\\kernel.bin") (some (codes "\\drivers"));
      }
      ∷ [];
}

-- The parser's variables: the configuration so far, and the title that `default` named.
pub record Parse : Type 0 where
  pub cfg : Config
  pub default_title : Option Text

abbrev pub initial : Parse
initial = record {
  cfg = record { timeout = 5; default = 0; entries = []; autodetect = true };
  default_title = none;
}

-- `if let Some(entry) = entries.last_mut() { … }`
unfoldable pub update_last : (Target → Target) → List Entry → List Entry
update_last f [] = []
update_last f (e ∷ []) = record e { target = f e.target } ∷ []
update_last f (e ∷ e' ∷ es) = e ∷ update_last f (e' ∷ es)

abbrev pub set_modules : Option Text → Target → Target
set_modules p (multiboot kernel modules) = multiboot kernel p
set_modules p (chainload path device) = chainload path device
set_modules p (linux kernel initrd cmdline) = linux kernel initrd cmdline

abbrev pub set_initrd : Option Text → Target → Target
set_initrd p (multiboot kernel modules) = multiboot kernel modules
set_initrd p (chainload path device) = chainload path device
set_initrd p (linux kernel initrd cmdline) = linux kernel p cmdline

abbrev pub set_options : Text → Target → Target
set_options arg (multiboot kernel modules) = multiboot kernel modules
set_options arg (chainload path device) = chainload path device
set_options arg (linux kernel initrd cmdline) = linux kernel initrd arg

abbrev pub replace_if : Option Text → (Text → Target) → Target → Target
replace_if none make t = t
replace_if (some p) make t = make p

-- `matches!(arg, "off" | "no" | "false" | "0")`
abbrev is_off : Text → Bool
is_off arg =
    text_eq arg (codes "off")
    || (text_eq arg (codes "no") || (text_eq arg (codes "false") || text_eq arg (codes "0")))

-- `default N` or `default TITLE`
abbrev pub set_default : Text → Option ℕ → Parse → Parse
set_default arg (some n) p = record p { cfg = record p.cfg { default = n } }
set_default arg none p = record p { default_title = some arg }

abbrev pub or_five : Option ℕ → ℕ
or_five none = 5
or_five (some n) = n

module _ (path : Text → Option Text) where
  -- What a directive of an entry does to its target; any other is reported and ignored.
  unfoldable pub retarget : Text → Text → Target → Target
  unfolding set_modules set_initrd set_options replace_if text_eq
  retarget directive arg t =
      if text_eq directive (codes "multiboot")
      then replace_if (path arg) (λ p. multiboot p none) t
      else if text_eq directive (codes "modules")
      then set_modules (path arg) t
      else if text_eq directive (codes "chainload")
      then replace_if (path arg) (λ p. chainload p none) t
      else if text_eq directive (codes "linux")
      then replace_if (path arg) (λ p. linux p none []) t
      else if text_eq directive (codes "initrd")
      then set_initrd (path arg) t
      else if text_eq directive (codes "options")
      then set_options arg t
      else t

  -- The outer `match directive`.
  unfoldable pub apply : Text → Text → Parse → Parse
  unfolding retarget update_last is_off set_default or_five text_eq
  apply directive arg p =
      if text_eq directive (codes "timeout")
      then record p { cfg = record p.cfg { timeout = or_five (parse_u64 arg) } }
      else if text_eq directive (codes "autodetect")
      then record p { cfg = record p.cfg { autodetect = not (is_off arg) } }
      else if text_eq directive (codes "default")
      then set_default arg (parse_u64 arg) p
      else if text_eq directive (codes "entry")
      then record p {
        cfg = record p.cfg {
          entries = p.cfg.entries ++ record { title = arg; target = multiboot [] none } ∷ [];
        };
      }
      else record p {
        cfg = record p.cfg { entries = update_last (retarget directive arg) p.cfg.entries };
      }

  -- One line: what stands before a `#`, trimmed; nothing is done for an empty one.
  unfoldable pub step : Parse → Text → Parse
  unfolding apply before
  step p raw =
      let line = trim (before b'#' raw) in
      if is_nil line then p else apply (first_word line) (trim (after_word line)) p

  unfoldable pub steps : Parse → List Text → Parse
  unfolding step
  steps p [] = p
  steps p (raw ∷ rest) = steps (step p raw) rest

-- `!kernel.is_empty()` for a Multiboot target, true for any other.
abbrev pub is_filled : Target → Bool
is_filled (multiboot kernel modules) = not (is_nil kernel)
is_filled (chainload path device) = true
is_filled (linux kernel initrd cmdline) = true

unfoldable pub retain_filled : List Entry → List Entry
retain_filled [] = []
retain_filled (e ∷ es) =
    let rest = retain_filled es in if is_filled e.target then e ∷ rest else rest

-- `entries.iter().position(|e| e.title == title)`
unfoldable pub position : Text → List Entry → Option ℕ
unfolding text_eq
position title [] = none
position title (e ∷ es) =
    let rest : Option ℕ = elim (position title es) [ none ↦ none | some i ↦ some (i + 1) ] in
    if text_eq e.title title then some 0 else rest

abbrev resolve : Option Text → ℕ → List Entry → ℕ
resolve none default entries = default
resolve (some title) default entries = elim (position title entries) [ none ↦ default | some i ↦ i ]

abbrev clamp : ℕ → List Entry → ℕ
clamp default entries = if leb (length entries) default then 0 else default

-- After the loop: unfilled entries go, the default's title is looked up, and a default that is out
-- of range becomes the first entry.
unfoldable pub finish : Parse → Config
unfolding resolve clamp retain_filled position
finish p =
    let entries = retain_filled p.cfg.entries in
    record p.cfg {
      default = clamp (resolve p.default_title p.cfg.default entries) entries;
      entries = entries;
    }

unfoldable pub parse : (Text → Option Text) → Text → Config
unfolding steps finish
parse path text = finish (steps path initial (lines text))
