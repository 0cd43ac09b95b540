-- ===== src/Tests/Config.antt =====
-- Runs of the configuration's parser.
use bang.Common.{◌≡◌, refl, true, false, Option, none, some, [], ◌∷◌, All}
use bang.Common.Text.{
  Text, codes, text_eq, before, first_word, after_word, trim, trim_start, trim_end, lines_from,
  strip_cr, parse_u64, digits_value, is_whitespace,
}
use bang.Config.{
  Config, Parse, multiboot, linux, step, steps, apply, retarget, update_last, retain_filled,
  position, finish, parse,
}
use bang.Config.Laws.{
  DefaultIsValid, IsBootable, HasTitledDefault, is_known, parse-IsValid, finish-HasTitledDefault,
}

abbrev pub any_path : Text → Option Text
any_path t = some t

abbrev pub file : Text
file =
    codes
      "# Bang\ntimeout 3\ndefault Linux\n\nentry Quark\n  multiboot \\k.bin # here\n  modules \\d\nentry Linux\r\n  linux \\vmlinuz\n  options quiet  splash \n  color red\nentry broken\n  multibot \\x\n"

abbrev pub parsed : Config
parsed = record {
  timeout = 3;
  default = 1;
  autodetect = true;
  entries =
      record { title = codes "Quark"; target = multiboot (codes "\\k.bin") (some (codes "\\d")) }
      ∷ record {
        title = codes "Linux";
        target = linux (codes "\\vmlinuz") none (codes "quiet  splash");
      }
      ∷ [];
}

parse-file : parse any_path file ≡ parsed
unfolding parse steps step apply retarget update_last retain_filled position finish text_eq before
    first_word after_word trim_start trim_end lines_from strip_cr parse_u64 digits_value
    is_whitespace
parse-file = refl

parse-IsValid_example :
    DefaultIsValid (parse any_path file) × All IsBootable (parse any_path file).entries
parse-IsValid_example = parse-IsValid any_path file

abbrev titled : Parse
titled = record { cfg = parsed; default_title = some (codes "Linux") }

finish-HasTitledDefault_example : HasTitledDefault (codes "Linux") 1 (finish titled)
finish-HasTitledDefault_example = finish-HasTitledDefault titled (codes "Linux") refl

color-unknown : is_known (first_word (trim (before b'#' (codes "  color red # new")))) ≡ false
unfolding text_eq before first_word trim_start trim_end is_whitespace
color-unknown = refl
