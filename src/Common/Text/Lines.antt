-- ===== src/Common/Text/Lines.antt =====
-- Text put together from lines, and taken apart again by `lines()`.
use bang.Common.{
  ◌≡◌, ◌≢◌, refl, ap₂, ◌∙◌, inl, inr, false, List, [], ◌∷◌, ◌++◌, append-nil, append_assoc, arith,
  All, All-append, ◌==◌, Bool-cases,
}
use bang.Common.Text.{Text, is_nil, trim_end, strip_cr, lines_from, lines}
use bang.Common.Text.Trim.{strip_cr-trimmed}

-- Each line with the newline that ends it.
unfoldable pub unlines : List Text → Text
unlines [] = []
unlines (l ∷ ls) = l ++ 10 ∷ unlines ls

abbrev pub IsOneLine : Text → Type 0
IsOneLine s = All (λ c. c ≢ 10) s

lines_from-line :
    (cur l s : Text)
    → IsOneLine l
    → lines_from cur (l ++ 10 ∷ s) ≡ strip_cr (cur ++ l) ∷ lines_from [] s
unfolding lines_from
lines_from-line cur [] s h = rw (append-nil cur) refl
lines_from-line cur (c ∷ l) s h =
    let other : (c == 10) ≡ false = ground (arith, h.0) in
    rw (other, lines_from-line (cur ++ c ∷ []) l s h.1, append_assoc cur (c ∷ []) l) refl

-- A line that stands on one line and has no white space at its end.
pub record IsPlainLine (s : Text) : Type 0 where
  pub one : IsOneLine s
  pub ends : trim_end s ≡ s

pub lines-unlines : (ls : List Text) → All IsPlainLine ls → lines (unlines ls) ≡ ls
unfolding unlines lines_from
lines-unlines [] h = refl
lines-unlines (l ∷ ls) h =
    lines_from-line [] l (unlines ls) h.0.one
    ∙ ap₂ (◌∷◌) (strip_cr-trimmed l h.0.ends) (lines-unlines ls h.1)

-- No line that `lines()` gives holds a newline.
strip_cr-IsOneLine : (s : Text) → IsOneLine s → IsOneLine (strip_cr s)
unfolding strip_cr
strip_cr-IsOneLine [] h = tt
strip_cr-IsOneLine (c ∷ []) h = elim (Bool-cases (c == 13)) [
  | inl cr ↦ rw cr tt
  | inr other ↦ rw other h
]
strip_cr-IsOneLine (c ∷ d ∷ s) h = (h.0, strip_cr-IsOneLine (d ∷ s) h.1)

lines_from-IsOneLine : (cur s : Text) → IsOneLine cur → All IsOneLine (lines_from cur s)
unfolding lines_from
lines_from-IsOneLine cur [] h = elim (Bool-cases (is_nil cur)) [
  | inl empty ↦ rw empty tt
  | inr more ↦ rw more (h, tt)
]
lines_from-IsOneLine cur (c ∷ s) h = elim (Bool-cases (c == 10)) [
  | inl newline ↦ rw newline (strip_cr-IsOneLine cur h, lines_from-IsOneLine [] s tt)
  | inr other ↦
      let apart : c ≢ 10 = ground (arith, other) in
      rw other (
        lines_from-IsOneLine (cur ++ c ∷ []) s
          (All-append (λ b. b ≢ 10) cur (c ∷ []) h (apart, tt)))
]

pub lines-IsOneLine : (s : Text) → All IsOneLine (lines s)
lines-IsOneLine s = lines_from-IsOneLine [] s tt
