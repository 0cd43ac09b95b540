-- ===== src/Common/Text.antt =====
-- Text as lists of code points, with the functions of `str` that the program uses.
pub mod Lines
pub mod Trim
pub mod Utf8
use Prim.Native.Char.{code}
use Prim.Native.String.{String}
use Prim.Native.Nat.{ℕ, ◌+◌, ◌*◌, ◌-◌, ◌^◌}
use mathlib.Core.Path.{◌≡◌}
use mathlib.Core.Logic.{◌↔◌}
use mathlib.Core.Bool.{Bool, true, false, ◌&&◌, ◌||◌}
use mathlib.Core.Option.{Option, none, some}
use mathlib.Core.List.{List, [], ◌∷◌, ◌++◌}
use native.Mathlib.Omega.{arith}
use bang.Common.Tests.{ltb, leb, ◌==◌, if◌then◌else◌}

abbrev pub Text : Type 0
Text = List ℕ

abbrev pub codes : String → Text
codes String.[] = []
codes (String.◌∷◌ c s) = code c ∷ codes s

abbrev pub is_nil {ℓ} : {A : Type ℓ} → List A → Bool
is_nil [] = true
is_nil (x ∷ xs) = false

unfoldable pub text_eq : Text → Text → Bool
text_eq [] [] = true
text_eq (a ∷ s) (b ∷ t) = a == b && text_eq s t
text_eq _ _ = false

pub text_eq_iff : (s t : Text) → (text_eq s t ≡ true) ↔ (s ≡ t)
unfolding text_eq
text_eq_iff (a ∷ s) (b ∷ t) = ground (arith, text_eq_iff s t)
text_eq_iff _ _ = ground arith

-- `char::is_whitespace`: the code points with the property White_Space.
unfoldable pub is_whitespace : ℕ → Bool
is_whitespace c =
    (leb 9 c && leb c 13)
    || (c == 32
        || (c == 0x85
            || (c == 0xa0
                || (c == 0x1680
                    || ((leb 0x2000 c && leb c 0x200a)
                        || (c == 0x2028
                            || (c == 0x2029 || (c == 0x202f || (c == 0x205f || c == 0x3000)))))))))

unfoldable pub trim_start : Text → Text
unfolding is_whitespace
trim_start [] = []
trim_start (c ∷ s) = let rest = trim_start s in if is_whitespace c then rest else c ∷ s

unfoldable pub trim_end : Text → Text
unfolding is_whitespace
trim_end [] = []
trim_end (c ∷ s) = let rest = trim_end s in if is_whitespace c && is_nil rest then [] else c ∷ rest

abbrev pub trim : Text → Text
trim s = trim_end (trim_start s)

-- Up to the first white space, and from it on: `line.find(char::is_whitespace)`.
unfoldable pub first_word : Text → Text
unfolding is_whitespace
first_word [] = []
first_word (c ∷ s) = if is_whitespace c then [] else c ∷ first_word s

unfoldable pub after_word : Text → Text
unfolding is_whitespace
after_word [] = []
after_word (c ∷ s) = let rest = after_word s in if is_whitespace c then c ∷ s else rest

-- `split(sep).next()`
unfoldable pub before : ℕ → Text → Text
before sep [] = []
before sep (c ∷ s) = if c == sep then [] else c ∷ before sep s

unfoldable pub strip_cr : Text → Text
strip_cr [] = []
strip_cr (c ∷ []) = if c == 13 then [] else c ∷ []
strip_cr (c ∷ d ∷ s) = c ∷ strip_cr (d ∷ s)

-- `lines()`, with the line read so far: each line ends at a newline, before which one carriage
-- return is dropped; a last line with no newline stands if it is not empty.
unfoldable pub lines_from : Text → Text → List Text
unfolding strip_cr
lines_from cur [] = if is_nil cur then [] else cur ∷ []
lines_from cur (c ∷ s) =
    let next = lines_from [] s in
    let more = lines_from (cur ++ c ∷ []) s in if c == 10 then strip_cr cur ∷ next else more

abbrev pub lines : Text → List Text
lines = lines_from []

-- The digits of `parse::<u64>`, which fails on another character and on overflow.
unfoldable pub digits_value : ℕ → Text → Option ℕ
digits_value acc [] = some acc
digits_value acc (c ∷ s) =
    let value = acc * 10 + (c - 48) in
    let rest = digits_value value s in
    if (leb 48 c && leb c 57) && ltb value (2 ^ 64) then rest else none

-- `parse::<u64>` and `parse::<usize>`: a plus sign may stand in front.
unfoldable pub parse_u64 : Text → Option ℕ
unfolding digits_value
parse_u64 [] = none
parse_u64 (c ∷ s) =
    if c == b'+' then (if is_nil s then none else digits_value 0 s) else digits_value 0 (c ∷ s)
