-- ===== src/Config/Print/Step.antt =====
-- One printed line, read by the parser of src/config.rs.
use bang.Common.{
  ◌≡◌, ◌≢◌, refl, sym, ap, ◌∙◌, Bool, true, false, not, ◌&&◌, Option, List, [], ◌∷◌, ◌++◌,
  append-nil, arith, All, All-append, ◌==◌,
}
use bang.Common.Text.{
  Text, is_nil, is_whitespace, trim_start, trim_end, trim, before, first_word, after_word,
}
use bang.Common.Text.Trim.{
  IsVisible, trim_lem, trim_end-append, trim_start-visible, trim_end_whole, first_word-append,
  first_word_whole, after_word-append, after_word_whole, before-absent,
}
use bang.Common.Text.Lines.{IsPlainLine}
use bang.Config.{Parse, apply, step, steps}
use bang.Config.Print.{directive_line, IsArg}

-- A word that can stand as a directive: its characters show, and none opens a comment.
abbrev pub is_word : Text → Bool
is_word [] = true
is_word (c ∷ s) = not (is_whitespace c) && (not (c == b'#') && is_word s)

is_word-IsVisible : (d : Text) → is_word d ≡ true → All IsVisible d
is_word-IsVisible [] h = tt
is_word-IsVisible (c ∷ d) h = (ground arith, is_word-IsVisible d (ground arith))

is_word-no_comment : (d : Text) → is_word d ≡ true → All (λ c. c ≢ b'#') d
is_word-no_comment [] h = tt
is_word-no_comment (c ∷ d) h = (ground arith, is_word-no_comment d (ground arith))

is_word-IsOneLine : (d : Text) → is_word d ≡ true → All (λ c. c ≢ 10) d
unfolding is_whitespace
is_word-IsOneLine [] h = tt
is_word-IsOneLine (c ∷ d) h = (ground arith, is_word-IsOneLine d (ground arith))

trim_start-shown : (d : Text) → All IsVisible d → trim_start d ≡ d
unfolding trim_start
trim_start-shown [] h = refl
trim_start-shown (c ∷ d) h = trim_start-visible c d h.0

pub is_word-IsArg : (d : Text) → is_word d ≡ true → IsArg d
is_word-IsArg d h =
    let seen = is_word-IsVisible d h in
    record {
      no_comment = is_word-no_comment d h;
      one_line = is_word-IsOneLine d h;
      is_trimmed = record { starts = trim_start-shown d seen; ends = trim_end_whole d seen };
    }

-- What stands after the word of a line, and the whole line, as the parser takes them apart.
record Splits (d arg line : Text) : Type 0 where
  uncommented : before b'#' line ≡ line
  is_trimmed : trim line ≡ line
  shown : is_nil line ≡ false
  word : first_word line ≡ d
  rest : trim (after_word line) ≡ arg

step-Splits :
    (path : Text → Option Text) (p : Parse) (d arg line : Text)
    → Splits d arg line
    → step path p line ≡ apply path d arg p
unfolding step
step-Splits path p d arg line s = rw (s.uncommented, s.is_trimmed, s.shown, s.word, s.rest) refl

trim_start-word : (d s : Text) → is_word d ≡ true → is_nil d ≡ false → trim_start (d ++ s) ≡ d ++ s
trim_start-word [] s h e = cc
trim_start-word (c ∷ d) s h e = trim_start-visible c (d ++ s) (is_word-IsVisible (c ∷ d) h).0

word-Splits : (d : Text) → is_word d ≡ true → is_nil d ≡ false → Splits d [] d
unfolding trim_start trim_end
word-Splits d h full =
    let seen = is_word-IsVisible d h in
    record {
      uncommented = before-absent b'#' d (is_word-no_comment d h);
      is_trimmed =
          ap trim_end
            (ap trim_start (sym (append-nil d)) ∙ trim_start-word d [] h full ∙ append-nil d)
          ∙ trim_end_whole d seen;
      shown = full;
      word = first_word_whole d seen;
      rest = ap trim (after_word_whole d seen);
    }

is_nil-append : (d s : Text) → is_nil d ≡ false → is_nil (d ++ s) ≡ false
is_nil-append [] s h = cc
is_nil-append (c ∷ d) s h = refl

trim-space : (arg : Text) → trim (32 ∷ arg) ≡ trim arg
unfolding trim_start
trim-space arg = refl

trim_end-space :
    (arg : Text) → trim_end arg ≡ arg → is_nil arg ≡ false → trim_end (32 ∷ arg) ≡ 32 ∷ arg
unfolding trim_end
trim_end-space [] e full = cc
trim_end-space (c ∷ s) e full = rw e refl

pair-Splits :
    (d arg : Text)
    → is_word d ≡ true
    → is_nil d ≡ false
    → IsArg arg
    → is_nil arg ≡ false
    → Splits d arg (d ++ 32 ∷ arg)
pair-Splits d arg h full a more =
    let seen = is_word-IsVisible d h in
    let hidden =
      All-append (λ c. c ≢ b'#') d (32 ∷ arg) (is_word-no_comment d h)
        ((λ e. absurd (omega arith)), a.no_comment) in
    record {
      uncommented = before-absent b'#' (d ++ 32 ∷ arg) hidden;
      is_trimmed =
          ap trim_end (trim_start-word d (32 ∷ arg) h full)
          ∙ trim_end-append d (32 ∷ arg) (trim_end-space arg a.is_trimmed.ends more) (λ e. cc);
      shown = is_nil-append d (32 ∷ arg) full;
      word = first_word-append d arg seen;
      rest = ap trim (after_word-append d arg seen) ∙ trim-space arg ∙ trim_lem arg a.is_trimmed;
    }

directive_line-Splits :
    (d arg : Text)
    → is_word d ≡ true
    → is_nil d ≡ false
    → IsArg arg
    → Splits d arg (directive_line d arg)
directive_line-Splits d [] h full a = word-Splits d h full
directive_line-Splits d (c ∷ arg) h full a = pair-Splits d (c ∷ arg) h full a refl

-- A printed line does what its directive does with its argument.
pub step-directive_line :
    (path : Text → Option Text) (p : Parse) (d arg : Text)
    → is_word d ≡ true
    → is_nil d ≡ false
    → IsArg arg
    → step path p (directive_line d arg) ≡ apply path d arg p
step-directive_line path p d arg h full a =
    step-Splits path p d arg (directive_line d arg) (directive_line-Splits d arg h full a)

-- A printed line is one line, with no white space at its end.
pub directive_line-IsPlainLine :
    (d arg : Text)
    → is_word d ≡ true
    → is_nil d ≡ false
    → IsArg arg
    → IsPlainLine (directive_line d arg)
directive_line-IsPlainLine d [] h full a = record {
  one = is_word-IsOneLine d h;
  ends = trim_end_whole d (is_word-IsVisible d h);
}
directive_line-IsPlainLine d (c ∷ arg) h full a = record {
  one =
      All-append (λ b. b ≢ 10) d (32 ∷ c ∷ arg) (is_word-IsOneLine d h)
        ((λ e. absurd (omega arith)), a.one_line);
  ends =
      trim_end-append d (32 ∷ c ∷ arg) (trim_end-space (c ∷ arg) a.is_trimmed.ends refl) (λ e. cc);
}

-- The lines of two parts are read one part after the other.
pub steps-append :
    (path : Text → Option Text) (p : Parse) (xs ys : List Text)
    → steps path p (xs ++ ys) ≡ steps path (steps path p xs) ys
unfolding steps
steps-append path p [] ys = refl
steps-append path p (x ∷ xs) ys = steps-append path (step path p x) xs ys
