-- ===== src/Common/Text/Utf8/Back.antt =====
-- `str::from_utf8` gives a text exactly for the bytes of one.
use bang.Common.{
  ℕ, ◌+◌, ◌-◌, ◌*◌, ◌/◌, ◌%◌, ◌<◌, ◌≤◌, ◌≡◌, ◌≢◌, refl, sym, ap, ap₂, ◌∙◌, inl, inr, Bool, true,
  false, ◌&&◌, Option, none, some, List, [], ◌∷◌, ◌++◌, append_assoc, arith, All, ltb, leb,
  Bool-cases,
}
use bang.Common.Text.{Text}
use bang.Common.Text.Utf8.{
  utf8, utf8_bytes, Progress, character, partial, malformed, is_continuation, is_scalar,
  character_if, partial_if, progress, pending_after, text_after, from_utf8_from, from_utf8,
}

character_if-lem : (ok : Bool) (v c : ℕ) → character_if ok v ≡ character c → (ok ≡ true) × (v ≡ c)
character_if-lem true v c e = (refl, cc)
character_if-lem false v c e = absurd cc

partial_if-lem : (ok : Bool) (c : ℕ) → partial_if ok ≢ character c
partial_if-lem true c e = cc
partial_if-lem false c e = cc

utf8-two : (c : ℕ) → 0x80 ≤ c → c < 0x800 → utf8 c ≡ (0xc0 + c / 64) ∷ (0x80 + c % 64) ∷ []
unfolding utf8
utf8-two c h k =
    let one : ltb c 0x80 ≡ false = ground arith in
    let two : ltb c 0x800 ≡ true = ground arith in rw (one, two) refl

utf8-three :
    (c : ℕ)
    → 0x800 ≤ c
    → c < 0x1_0000
    → utf8 c ≡ (0xe0 + c / 4096) ∷ (0x80 + c / 64 % 64) ∷ (0x80 + c % 64) ∷ []
unfolding utf8
utf8-three c h k =
    let one : ltb c 0x80 ≡ false = ground arith in
    let two : ltb c 0x800 ≡ false = ground arith in
    let three : ltb c 0x1_0000 ≡ true = ground arith in rw (one, two, three) refl

utf8-four :
    (c : ℕ)
    → 0x1_0000 ≤ c
    → utf8 c
      ≡ (0xf0 + c / 26_2144) ∷ (0x80 + c / 4096 % 64) ∷ (0x80 + c / 64 % 64) ∷ (0x80 + c % 64) ∷ []
unfolding utf8
utf8-four c h =
    let one : ltb c 0x80 ≡ false = ground arith in
    let two : ltb c 0x800 ≡ false = ground arith in
    let three : ltb c 0x1_0000 ≡ false = ground arith in rw (one, two, three) refl

progress-one_back :
    (a c : ℕ) → progress (a ∷ []) ≡ character c → (utf8 c ≡ a ∷ []) × (is_scalar c ≡ true)
unfolding progress utf8
progress-one_back a c e = elim (Bool-cases (ltb a 0x80)) [
  | inl ascii ↦
      let here : progress (a ∷ []) ≡ character a = rw ascii refl in
      let same : a ≡ c = cc in
      let small : ltb c 0x80 ≡ true = ground (arith, ascii, same) in
      (rw (small, same) refl, ground (arith, small))
  | inr more ↦
      let here : progress (a ∷ []) ≡ partial_if (leb 0xc2 a && leb a 0xf4) = rw more refl in
      absurd (partial_if-lem _ c (sym here ∙ e))
]

progress-two_back :
    (a b c : ℕ) → progress (a ∷ b ∷ []) ≡ character c → (utf8 c ≡ a ∷ b ∷ []) × (is_scalar c ≡ true)
unfolding progress
progress-two_back a b c e =
    let v : ℕ = (a - 0xc0) * 64 + (b - 0x80) in
    elim (Bool-cases (leb a 0xdf)) [
      | inl two ↦
          let ok : Bool = leb 0xc2 a && is_continuation b in
          let here : progress (a ∷ b ∷ []) ≡ character_if ok v = rw two refl in
          let got = character_if-lem ok v c (sym here ∙ e) in
          let fits = got.0 in
          let same = got.1 in
          let a_low : 0xc2 ≤ a = ground (arith, fits) in
          let a_high : a ≤ 0xdf = ground (arith, two) in
          let b_low : 0x80 ≤ b = ground (arith, fits) in
          let b_high : b ≤ 0xbf = ground (arith, fits) in
          (
            utf8-two c (omega arith) (omega arith)
                ∙ ap₂ (λ x y. x ∷ y ∷ []) (omega arith) (omega arith),
            let small : c < 0xd800 = omega arith in ground (arith, small),
          )
      | inr more ↦
          let here : progress (a ∷ b ∷ []) ≡ partial_if (leb a 0xf4 && is_continuation b) =
            rw more refl in
          absurd (partial_if-lem _ c (sym here ∙ e))
    ]

progress-three_back :
    (a b d c : ℕ)
    → progress (a ∷ b ∷ d ∷ []) ≡ character c
    → (utf8 c ≡ a ∷ b ∷ d ∷ []) × (is_scalar c ≡ true)
unfolding progress
progress-three_back a b d c e =
    let v : ℕ = (a - 0xe0) * 4096 + (b - 0x80) * 64 + (d - 0x80) in
    let continued : Bool = is_continuation b && is_continuation d in
    elim (Bool-cases (leb a 0xef)) [
      | inl three ↦
          let ok : Bool = leb 0xe0 a && continued && (leb 0x800 v && is_scalar v) in
          let here : progress (a ∷ b ∷ d ∷ []) ≡ character_if ok v = rw three refl in
          let got = character_if-lem ok v c (sym here ∙ e) in
          let fits = got.0 in
          let same = got.1 in
          let a_low : 0xe0 ≤ a = ground (arith, fits) in
          let a_high : a ≤ 0xef = ground (arith, three) in
          let b_low : 0x80 ≤ b = ground (arith, fits) in
          let b_high : b ≤ 0xbf = ground (arith, fits) in
          let d_low : 0x80 ≤ d = ground (arith, fits) in
          let d_high : d ≤ 0xbf = ground (arith, fits) in
          let least : 0x800 ≤ v = ground (arith, fits) in
          let scalar : is_scalar v ≡ true = ground (arith, fits) in
          (
            utf8-three c (omega arith) (omega arith)
                ∙ (ap₂ (λ x y. x ∷ y ∷ (0x80 + c % 64) ∷ []) (omega arith) (omega arith)
                    ∙ ap (λ z. a ∷ b ∷ z ∷ []) (omega arith)),
            sym (ap is_scalar same) ∙ scalar,
          )
      | inr more ↦
          let here : progress (a ∷ b ∷ d ∷ []) ≡ partial_if (leb a 0xf4 && continued) =
            rw more refl in
          absurd (partial_if-lem _ c (sym here ∙ e))
    ]

progress-four_back :
    (a b d f c : ℕ)
    → progress (a ∷ b ∷ d ∷ f ∷ []) ≡ character c
    → (utf8 c ≡ a ∷ b ∷ d ∷ f ∷ []) × (is_scalar c ≡ true)
unfolding progress
progress-four_back a b d f c e =
    let v : ℕ = (a - 0xf0) * 26_2144 + (b - 0x80) * 4096 + (d - 0x80) * 64 + (f - 0x80) in
    let continued : Bool = is_continuation b && is_continuation d && is_continuation f in
    let ok : Bool = leb 0xf0 a && leb a 0xf4 && continued && (leb 0x1_0000 v && is_scalar v) in
    let got = character_if-lem ok v c e in
    let fits = got.0 in
    let same = got.1 in
    let a_low : 0xf0 ≤ a = ground (arith, fits) in
    let b_low : 0x80 ≤ b = ground (arith, fits) in
    let b_high : b ≤ 0xbf = ground (arith, fits) in
    let d_low : 0x80 ≤ d = ground (arith, fits) in
    let d_high : d ≤ 0xbf = ground (arith, fits) in
    let f_low : 0x80 ≤ f = ground (arith, fits) in
    let f_high : f ≤ 0xbf = ground (arith, fits) in
    let least : 0x1_0000 ≤ v = ground (arith, fits) in
    let scalar : is_scalar v ≡ true = ground (arith, fits) in
    (
      utf8-four c (omega arith)
          ∙ (ap₂ (λ x y. x ∷ y ∷ (0x80 + c / 64 % 64) ∷ (0x80 + c % 64) ∷ []) (omega arith)
                (omega arith)
              ∙ ap₂ (λ x y. a ∷ b ∷ x ∷ y ∷ []) (omega arith) (omega arith)),
      sym (ap is_scalar same) ∙ scalar,
    )

progress-back :
    (bs : List ℕ) (c : ℕ) → progress bs ≡ character c → (utf8 c ≡ bs) × (is_scalar c ≡ true)
unfolding progress
progress-back [] c e = absurd cc
progress-back (a ∷ []) c e = progress-one_back a c e
progress-back (a ∷ b ∷ []) c e = progress-two_back a b c e
progress-back (a ∷ b ∷ d ∷ []) c e = progress-three_back a b d c e
progress-back (a ∷ b ∷ d ∷ f ∷ []) c e = progress-four_back a b d f c e
progress-back (a ∷ b ∷ d ∷ f ∷ g ∷ bs) c e = absurd cc

abbrev IsCharacter : ℕ → Type 0
IsCharacter c = is_scalar c ≡ true

-- What is read of the next byte.
pub from_utf8_from-cons :
    (pending : List ℕ) (b : ℕ) (bs : List ℕ) (p : Progress)
    → progress (pending ++ b ∷ []) ≡ p
    → from_utf8_from pending (b ∷ bs)
      ≡ text_after p (from_utf8_from (pending_after p (pending ++ b ∷ [])) bs)
unfolding from_utf8_from
from_utf8_from-cons pending b bs p e =
    ap (λ q. text_after q (from_utf8_from (pending_after q (pending ++ b ∷ [])) bs)) e

utf8_bytes-cons : (c : ℕ) (t : Text) → utf8_bytes (c ∷ t) ≡ utf8 c ++ utf8_bytes t
unfolding utf8_bytes
utf8_bytes-cons c t = refl

text_after-character :
    (c : ℕ) (rest : Option Text) (t : Text)
    → text_after (character c) rest ≡ some t
    → (t' : Text) × (rest ≡ some t') × (t ≡ c ∷ t')
text_after-character c none t e = absurd cc
text_after-character c (some t') t e = (t', refl, cc)

from_utf8_from-back :
    (pending bs : List ℕ) (t : Text)
    → from_utf8_from pending bs ≡ some t
    → (utf8_bytes t ≡ pending ++ bs) × All IsCharacter t
unfolding from_utf8_from utf8_bytes
from_utf8_from-back [] [] t e = let empty : t ≡ [] = cc in rw empty (refl, tt)
from_utf8_from-back (p ∷ pending) [] t e = absurd cc
from_utf8_from-back pending (b ∷ bs) t e =
    by_progress (λ ps u. from_utf8_from-back ps bs u) (progress bytes) refl
  where
    bytes : List ℕ
    bytes = pending ++ b ∷ []

    by_progress :
        ((ps : List ℕ) (u : Text)
          → from_utf8_from ps bs ≡ some u
          → (utf8_bytes u ≡ ps ++ bs) × All IsCharacter u)
        → (p : Progress) → progress bytes ≡ p
        → (utf8_bytes t ≡ pending ++ b ∷ bs) × All IsCharacter t
    by_progress again malformed q =
        let nothing = from_utf8_from-cons pending b bs malformed q in absurd cc
    by_progress again partial q =
        let more = again bytes t (sym (from_utf8_from-cons pending b bs partial q) ∙ e) in
        (more.0 ∙ append_assoc pending (b ∷ []) bs, more.1)
    by_progress again (character c) q =
        let got =
          text_after-character c (from_utf8_from [] bs) t
            (sym (from_utf8_from-cons pending b bs (character c) q) ∙ e) in
        let here = progress-back bytes c q in
        let more = again [] got.0 got.1 in
        rw got.2 (
          utf8_bytes-cons c got.0 ∙ ap₂ (◌++◌) here.0 more.0 ∙ append_assoc pending (b ∷ []) bs,
          (here.1, more.1),
        )

-- Bytes that are read as a text are the bytes of that text, and all its numbers are characters.
pub from_utf8_back :
    (bs : List ℕ) (t : Text)
    → from_utf8 bs ≡ some t
    → (utf8_bytes t ≡ bs) × All (λ c. is_scalar c ≡ true) t
from_utf8_back bs t e = from_utf8_from-back [] bs t e
