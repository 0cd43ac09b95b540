-- ===== src/Common/Text/Utf8/Forth.antt =====
-- `str::from_utf8` reads the bytes of a text as that text.
use bang.Common.{
  ℕ, ◌+◌, ◌/◌, ◌%◌, ◌≡◌, ◌≢◌, refl, ap, ◌∙◌, inl, inr, true, none, some, List, [], ◌∷◌, ◌++◌, All,
  ltb, Bool-cases,
}
use bang.Common.Text.{Text}
use bang.Common.Text.Utf8.{
  utf8, utf8_bytes, character, partial, is_scalar, progress, progress-one, progress-two_partial,
  progress-two, progress-three_partial, progress-three, progress-four_partial, progress-four,
  text_after, from_utf8_from, from_utf8,
}
use bang.Common.Text.Utf8.Back.{from_utf8_from-cons}

-- A byte that leaves a character unfinished, and one that finishes it.
from_utf8_from-partial :
    (pending : List ℕ) (b : ℕ) (bs : List ℕ)
    → progress (pending ++ b ∷ []) ≡ partial
    → from_utf8_from pending (b ∷ bs) ≡ from_utf8_from (pending ++ b ∷ []) bs
from_utf8_from-partial pending b bs e = from_utf8_from-cons pending b bs partial e

from_utf8_from-character :
    (pending : List ℕ) (b : ℕ) (bs : List ℕ) (c : ℕ)
    → progress (pending ++ b ∷ []) ≡ character c
    → from_utf8_from pending (b ∷ bs) ≡ text_after (character c) (from_utf8 bs)
from_utf8_from-character pending b bs c e = from_utf8_from-cons pending b bs (character c) e

from_utf8-utf8 :
    (c : ℕ) (bs : List ℕ)
    → is_scalar c ≡ true
    → from_utf8 (utf8 c ++ bs) ≡ text_after (character c) (from_utf8 bs)
unfolding utf8
from_utf8-utf8 c bs s = elim (Bool-cases (ltb c 0x80)) [
  | inl one ↦ rw one (from_utf8_from-character [] c bs c (progress-one c one))
  | inr longer ↦ elim (Bool-cases (ltb c 0x800)) [
    | inl two ↦
        rw (longer, two)
          (from_utf8_from-partial [] (0xc0 + c / 64) _ (progress-two_partial c longer two)
            ∙ from_utf8_from-character _ (0x80 + c % 64) bs c (progress-two c longer two))
    | inr more ↦ elim (Bool-cases (ltb c 0x1_0000)) [
      | inl three ↦
          let begun = progress-three_partial c more three in
          rw (longer, more, three)
            (from_utf8_from-partial [] (0xe0 + c / 4096) _ begun.0
              ∙ from_utf8_from-partial _ (0x80 + c / 64 % 64) _ begun.1
              ∙ from_utf8_from-character _ (0x80 + c % 64) bs c (progress-three c s more three))
      | inr four ↦
          let begun = progress-four_partial c s four in
          rw (longer, more, four)
            (from_utf8_from-partial [] (0xf0 + c / 26_2144) _ begun.0
              ∙ from_utf8_from-partial _ (0x80 + c / 4096 % 64) _ begun.1
              ∙ from_utf8_from-partial _ (0x80 + c / 64 % 64) _ begun.2
              ∙ from_utf8_from-character _ (0x80 + c % 64) bs c (progress-four c s four))
    ]
  ]
]

from_utf8-nil : from_utf8 [] ≡ some []
unfolding from_utf8_from
from_utf8-nil = refl

-- The bytes of a text of characters are read as that text.
pub from_utf8-utf8_bytes :
    (t : Text) → All (λ c. is_scalar c ≡ true) t → from_utf8 (utf8_bytes t) ≡ some t
unfolding utf8_bytes
from_utf8-utf8_bytes [] h = from_utf8-nil
from_utf8-utf8_bytes (c ∷ t) h =
    from_utf8-utf8 c (utf8_bytes t) h.0 ∙ ap (text_after (character c)) (from_utf8-utf8_bytes t h.1)

-- Bytes that are refused are those of no text of characters.
pub from_utf8_refused :
    (bs : List ℕ) (t : Text)
    → from_utf8 bs ≡ none
    → All (λ c. is_scalar c ≡ true) t
    → utf8_bytes t ≢ bs
from_utf8_refused bs t e h same = let read = from_utf8-utf8_bytes t h in cc
