-- ===== src/Tests/Boot.antt =====
-- Runs of the list of entries that is offered.
use bang.Common.{◌≡◌, ◌≢◌, refl, none, some, [], ◌∷◌, ◌++◌}
use bang.Common.Text.{
  Text, codes, text_eq, before, first_word, after_word, trim_start, trim_end, lines_from, strip_cr,
  parse_u64, digits_value, is_whitespace,
}
use bang.Boot.{add_found, already, names, offered, taken}
use bang.Boot.Entries.{taken-choose, taken-empty}
use bang.Config.{
  Entry, chainload, steps, step, apply, retarget, update_last, retain_filled, position, finish,
  parse,
}
use bang.Discover.{Found}
use bang.Menu.{printable, choose, chosen, polls, poll, on_key, press}
use bang.Tests.Config.{any_path}
use bang.Tests.Menu.{three, screen}

abbrev windows : Found
windows = record { title = codes "Windows"; device = 4; path = codes "A" }

abbrev other : Found
other = record { title = codes "Other"; device = 5; path = codes "\\EFI\\o.efi" }

-- `A` is named by an entry of any device; the other loader is not.
add_found-two :
    add_found (windows ∷ other ∷ []) three.entries
    ≡ three.entries
      ++ record { title = codes "Other"; target = chainload (codes "\\EFI\\o.efi") (some 5) } ∷ []
unfolding add_found already names text_eq
add_found-two = refl

abbrev text : Text
text = codes "default 1\nentry Q\nmultiboot \\k"

offered-some : (offered (some (parse any_path text)) (other ∷ [])).entries ≢ []
unfolding offered add_found already names text_eq parse steps step apply retarget update_last
    retain_filled position finish before first_word after_word trim_start trim_end lines_from
    strip_cr parse_u64 digits_value is_whitespace
offered-some h = cc

choose-enter :
    (choose screen
      (offered (some (parse any_path text)) (other ∷ []))
      (some (printable b'2') ∷ [])).1
    ≡ chosen 1
unfolding choose polls poll on_key press offered add_found already names text_eq parse steps step
    apply retarget update_last retain_filled position finish before first_word after_word trim_start
    trim_end lines_from strip_cr parse_u64 digits_value is_whitespace
choose-enter = refl

taken-choose_example :
    (e : Entry) × (taken (offered (some (parse any_path text)) (other ∷ [])) 1 ≡ some e)
taken-choose_example =
    taken-choose any_path text (other ∷ []) screen (some (printable b'2') ∷ []) 1 offered-some
      choose-enter

offered-none : (offered (some (parse any_path [])) []).entries ≡ []
unfolding offered add_found parse steps finish lines_from
offered-none = refl

taken-empty_example :
    (choose screen (offered (some (parse any_path [])) []) [] ≡ ([], chosen 0))
    × (taken (offered (some (parse any_path [])) []) 0 ≡ none)
taken-empty_example = taken-empty any_path [] [] screen [] offered-none
