-- ===== src/Common/Text/Utf8.antt =====
-- The bytes of a text, and `str::from_utf8`, which takes them apart again.
pub mod Back
pub mod Forth
use bang.Common.{
  ℕ, zero, suc, ◌+◌, ◌-◌, ◌*◌, ◌/◌, ◌%◌, ◌<◌, ◌≤◌, ◌≡◌, ◌≢◌, refl, sym, ap, ◌∙◌, inl, inr, Bool,
  true, false, not, ◌&&◌, ◌||◌, Option, none, some, List, [], ◌∷◌, ◌++◌, append-nil, append_assoc,
  arith, All, ltb, leb, ◌==◌, if◌then◌else◌, Bool-cases,
}
use bang.Common.Text.{Text, is_nil}

-- The bytes of a code point, and of a text.
unfoldable pub utf8 : ℕ → List ℕ
utf8 c =
    if ltb c 0x80
    then c ∷ []
    else if ltb c 0x800
    then (0xc0 + c / 64) ∷ (0x80 + c % 64) ∷ []
    else if ltb c 0x1_0000
    then (0xe0 + c / 4096) ∷ (0x80 + c / 64 % 64) ∷ (0x80 + c % 64) ∷ []
    else (0xf0 + c / 26_2144) ∷ (0x80 + c / 4096 % 64) ∷ (0x80 + c / 64 % 64) ∷ (0x80 + c % 64) ∷ []

unfoldable pub utf8_bytes : Text → List ℕ
unfolding utf8
utf8_bytes [] = []
utf8_bytes (c ∷ cs) = utf8 c ++ utf8_bytes cs

-- What some bytes are: a character's, the first of one's, or neither.
pub data Progress : Type 0 where
  character : ℕ → Progress
  partial malformed : Progress

abbrev pub is_continuation : ℕ → Bool
is_continuation b = leb 0x80 b && leb b 0xbf

-- The numbers that are characters: those that UTF-16 keeps for its pairs are not.
abbrev pub is_scalar : ℕ → Bool
is_scalar c = ltb c 0xd800 || (leb 0xe000 c && leb c 0x10_ffff)

abbrev pub character_if : Bool → ℕ → Progress
character_if ok v = if ok then character v else malformed

abbrev pub partial_if : Bool → Progress
partial_if ok = if ok then partial else malformed

unfoldable pub progress : List ℕ → Progress
progress (a ∷ []) = if ltb a 0x80 then character a else partial_if (leb 0xc2 a && leb a 0xf4)
progress (a ∷ b ∷ []) =
    let v : ℕ = (a - 0xc0) * 64 + (b - 0x80) in
    if leb a 0xdf
    then character_if (leb 0xc2 a && is_continuation b) v
    else partial_if (leb a 0xf4 && is_continuation b)
progress (a ∷ b ∷ c ∷ []) =
    let v : ℕ = (a - 0xe0) * 4096 + (b - 0x80) * 64 + (c - 0x80) in
    let continued : Bool = is_continuation b && is_continuation c in
    if leb a 0xef
    then character_if (leb 0xe0 a && continued && (leb 0x800 v && is_scalar v)) v
    else partial_if (leb a 0xf4 && continued)
progress (a ∷ b ∷ c ∷ d ∷ []) =
    let v : ℕ = (a - 0xf0) * 26_2144 + (b - 0x80) * 4096 + (c - 0x80) * 64 + (d - 0x80) in
    let continued : Bool = is_continuation b && is_continuation c && is_continuation d in
    character_if (leb 0xf0 a && leb a 0xf4 && continued && (leb 0x1_0000 v && is_scalar v)) v
progress _ = malformed

abbrev pub pending_after : Progress → List ℕ → List ℕ
pending_after (character c) bs = []
pending_after partial bs = bs
pending_after malformed bs = []

abbrev pub text_after : Progress → Option Text → Option Text
text_after (character c) none = none
text_after (character c) (some t) = some (c ∷ t)
text_after partial rest = rest
text_after malformed rest = none

-- With the bytes read so far of a character.
unfoldable pub from_utf8_from : List ℕ → List ℕ → Option Text
unfolding progress pending_after text_after
from_utf8_from pending [] = if is_nil pending then some [] else none
from_utf8_from pending (b ∷ bs) =
    let bytes = pending ++ b ∷ [] in
    let rest = from_utf8_from (pending_after (progress bytes) bytes) bs in
    text_after (progress bytes) rest

-- `str::from_utf8`, with the characters of what it gives.
abbrev pub from_utf8 : List ℕ → Option Text
from_utf8 = from_utf8_from []

pub progress-one : (c : ℕ) → ltb c 0x80 ≡ true → progress (c ∷ []) ≡ character c
unfolding progress
progress-one c h = rw h refl

pub progress-two_partial :
    (c : ℕ) → ltb c 0x80 ≡ false → ltb c 0x800 ≡ true → progress ((0xc0 + c / 64) ∷ []) ≡ partial
unfolding progress
progress-two_partial c h k = ground arith

pub progress-two :
    (c : ℕ)
    → ltb c 0x80 ≡ false
    → ltb c 0x800 ≡ true
    → progress ((0xc0 + c / 64) ∷ (0x80 + c % 64) ∷ []) ≡ character c
unfolding progress
progress-two c h k = ground arith

pub progress-three_partial :
    (c : ℕ)
    → ltb c 0x800 ≡ false
    → ltb c 0x1_0000 ≡ true
    → (progress ((0xe0 + c / 4096) ∷ []) ≡ partial)
      × (progress ((0xe0 + c / 4096) ∷ (0x80 + c / 64 % 64) ∷ []) ≡ partial)
unfolding progress
progress-three_partial c h k = (ground arith, ground arith)

pub progress-three :
    (c : ℕ)
    → is_scalar c ≡ true
    → ltb c 0x800 ≡ false
    → ltb c 0x1_0000 ≡ true
    → progress ((0xe0 + c / 4096) ∷ (0x80 + c / 64 % 64) ∷ (0x80 + c % 64) ∷ []) ≡ character c
unfolding progress
progress-three c s h k =
    let value : (0xe0 + c / 4096 - 0xe0) * 4096
          + (0x80 + c / 64 % 64 - 0x80) * 64
          + (0x80 + c % 64 - 0x80)
        ≡ c =
      omega arith in
    rw (value, s) (ground arith)

pub progress-four_partial :
    (c : ℕ)
    → is_scalar c ≡ true
    → ltb c 0x1_0000 ≡ false
    → (progress ((0xf0 + c / 26_2144) ∷ []) ≡ partial)
      × (progress ((0xf0 + c / 26_2144) ∷ (0x80 + c / 4096 % 64) ∷ []) ≡ partial)
      × (progress ((0xf0 + c / 26_2144) ∷ (0x80 + c / 4096 % 64) ∷ (0x80 + c / 64 % 64) ∷ [])
          ≡ partial)
unfolding progress
progress-four_partial c s h = (ground arith, ground arith, ground arith)

pub progress-four :
    (c : ℕ)
    → is_scalar c ≡ true
    → ltb c 0x1_0000 ≡ false
    → progress (
        (0xf0 + c / 26_2144) ∷ (0x80 + c / 4096 % 64) ∷ (0x80 + c / 64 % 64) ∷ (0x80 + c % 64) ∷ [])
      ≡ character c
unfolding progress
progress-four c s h =
    let value : (0xf0 + c / 26_2144 - 0xf0) * 26_2144
          + (0x80 + c / 4096 % 64 - 0x80) * 4096
          + (0x80 + c / 64 % 64 - 0x80) * 64
          + (0x80 + c % 64 - 0x80)
        ≡ c =
      omega arith in
    rw (value, s) (ground arith)
