-- ===== src/Tests/Print.antt =====
-- Runs of a printed configuration, and of the loading of a file with it.
use bang.Common.{
  ℕ, ◌≤◌, ◌^◌, ◌≡◌, refl, inl, true, false, Bool, ◌&&◌, none, some, List, [], ◌∷◌, arith, length,
}
use bang.Common.Text.{
  Text, codes, text_eq, before, first_word, after_word, trim_start, trim_end, lines_from, strip_cr,
  parse_u64, digits_value, is_whitespace,
}
use bang.Common.Text.Lines.{unlines}
use bang.Common.Text.Utf8.{utf8, utf8_bytes, is_scalar}
use bang.Config.{
  Config, Entry, multiboot, chainload, step, steps, apply, retarget, update_last, retain_filled,
  position, finish, parse,
}
use bang.Config.Load.{load}
use bang.Config.Load.Laws.{AreCharacters, IsLoaded, load-IsLoaded, load-print}
use bang.Config.Print.{IsArg, IsPath, print, printed_lines, IsPrintable}
use bang.Config.Print.Normal.{parse-print_again}
use bang.Config.Print.RoundTrip.{parse-print}
use bang.Config.Print.Step.{is_word-IsArg}
use bang.Menu.{push_num, low_digits}
use bang.Tests.Config.{any_path, file}
use bang.Tests.Files.{read_asked, listed_file}

abbrev pub quark : Entry
quark = record { title = codes "Quark"; target = multiboot (codes "\\k") (some (codes "\\d")) }

abbrev pub two_entries : Config
two_entries = record {
  timeout = 0;
  default = 1;
  autodetect = false;
  entries =
      record { title = codes "Shell"; target = chainload (codes "\\s.efi") none } ∷ quark ∷ [];
}

print-two_entries :
    print two_entries
    ≡ codes
        "timeout 0\nautodetect off\ndefault 1\nentry Shell\nchainload \\s.efi\nentry Quark\nmultiboot \\k\nmodules \\d\n"
unfolding print printed_lines unlines push_num low_digits
print-two_entries = refl

word-IsPath : (p : Text) → IsArg p → IsPath any_path p
word-IsPath p a = record { is_arg = a; is_taken = refl }

pub two_entries-IsPrintable : IsPrintable any_path two_entries
unfolding is_whitespace
two_entries-IsPrintable = record {
  timeout_word = omega arith;
  default_word = omega arith;
  default_valid = inl (omega arith);
  all_entries = (
    record {
      has_title = is_word-IsArg (codes "Shell") refl;
      has_target = (word-IsPath (codes "\\s.efi") (is_word-IsArg (codes "\\s.efi") refl), refl);
    },
    (
      record {
        has_title = is_word-IsArg (codes "Quark") refl;
        has_target = (
          word-IsPath (codes "\\k") (is_word-IsArg (codes "\\k") refl),
          refl,
          word-IsPath (codes "\\d") (is_word-IsArg (codes "\\d") refl),
        );
      },
      tt,
    ),
  );
}

parse-print_example : parse any_path (print two_entries) ≡ two_entries
parse-print_example = parse-print any_path two_entries two_entries-IsPrintable

any_path-exact : (a p : Text) → any_path a ≡ some p → p ≡ a
any_path-exact a p e = cc

few_entries : length (parse any_path file).entries ≤ 2 ^ 64
unfolding parse steps step apply retarget update_last retain_filled position finish text_eq before
    first_word after_word trim_start trim_end lines_from strip_cr parse_u64 digits_value
    is_whitespace
few_entries = omega arith

parse-print_again_example : parse any_path (print (parse any_path file)) ≡ parse any_path file
parse-print_again_example = parse-print_again any_path any_path-exact file few_entries

all_characters : Text → Bool
all_characters [] = true
all_characters (c ∷ t) = is_scalar c && all_characters t

all_characters-AreCharacters : (t : Text) → all_characters t ≡ true → AreCharacters t
unfolding all_characters
all_characters-AreCharacters [] h = tt
all_characters-AreCharacters (c ∷ t) h =
    (ground arith, all_characters-AreCharacters t (ground arith))

pub two_entries-AreCharacters : AreCharacters (print two_entries)
unfolding print printed_lines unlines push_num low_digits all_characters
two_entries-AreCharacters = all_characters-AreCharacters (print two_entries) refl

abbrev pub config_file : List ℕ
config_file = utf8_bytes (print two_entries)

pub read-config_file : read_asked config_file 106 ≡ (some config_file, [])
unfolding print printed_lines unlines push_num low_digits utf8_bytes utf8
read-config_file = refl

pub load-two_entries : load any_path read_asked (some (106, config_file)) ≡ some two_entries
load-two_entries =
    load-print listed_file any_path two_entries 106 config_file [] two_entries-IsPrintable
      two_entries-AreCharacters (omega arith) (omega arith) read-config_file

load-IsLoaded_example :
    IsLoaded listed_file any_path
      (some (106, config_file))
      (load any_path read_asked (some (106, config_file)))
load-IsLoaded_example = load-IsLoaded listed_file any_path (some (106, config_file))
