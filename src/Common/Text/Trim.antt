-- ===== src/Common/Text/Trim.antt =====
-- Trimmed text, and the words of a line.
use bang.Common.{
  ℕ, ◌≡◌, ◌≢◌, refl, ap, ◌∙◌, inl, inr, ◌⊎◌, false, ◌&&◌, [], ◌∷◌, ◌++◌, arith, All, ◌==◌,
  Bool-cases,
}
use bang.Common.Text.{
  Text, is_nil, is_whitespace, trim_start, trim_end, trim, first_word, after_word, before, strip_cr,
}

-- Text that `trim` leaves as it is.
pub record IsTrimmed (s : Text) : Type 0 where
  pub starts : trim_start s ≡ s
  pub ends : trim_end s ≡ s

abbrev pub IsVisible : ℕ → Type 0
IsVisible c = is_whitespace c ≡ false

pub trim_lem : (s : Text) → IsTrimmed s → trim s ≡ s
trim_lem s t = ap trim_end t.starts ∙ t.ends

trim_end-cons : (c : ℕ) (s : Text) → trim_end s ≡ s → s ≢ [] → trim_end (c ∷ s) ≡ c ∷ s
unfolding trim_end
trim_end-cons c [] e h = absurd (h refl)
trim_end-cons c (d ∷ s) e h = rw e (ground arith)

append-ne-nil : (s t : Text) → t ≢ [] → s ++ t ≢ []
append-ne-nil [] t h e = h e
append-ne-nil (c ∷ s) t h e = cc

-- Trimmed text that is not empty ends any text.
pub trim_end-append : (s t : Text) → trim_end t ≡ t → t ≢ [] → trim_end (s ++ t) ≡ s ++ t
trim_end-append [] t e h = e
trim_end-append (c ∷ s) t e h =
    trim_end-cons c (s ++ t) (trim_end-append s t e h) (append-ne-nil s t h)

pub first_word-append : (d arg : Text) → All IsVisible d → first_word (d ++ 32 ∷ arg) ≡ d
unfolding first_word is_whitespace
first_word-append [] arg h = refl
first_word-append (c ∷ d) arg h = rw h.0 (ap (◌∷◌ c) (first_word-append d arg h.1))

pub after_word-append : (d arg : Text) → All IsVisible d → after_word (d ++ 32 ∷ arg) ≡ 32 ∷ arg
unfolding after_word is_whitespace
after_word-append [] arg h = refl
after_word-append (c ∷ d) arg h = rw h.0 (after_word-append d arg h.1)

pub first_word_whole : (d : Text) → All IsVisible d → first_word d ≡ d
unfolding first_word
first_word_whole [] h = refl
first_word_whole (c ∷ d) h = rw h.0 (ap (◌∷◌ c) (first_word_whole d h.1))

pub after_word_whole : (d : Text) → All IsVisible d → after_word d ≡ []
unfolding after_word
after_word_whole [] h = refl
after_word_whole (c ∷ d) h = rw h.0 (after_word_whole d h.1)

pub trim_start-visible : (c : ℕ) (s : Text) → IsVisible c → trim_start (c ∷ s) ≡ c ∷ s
unfolding trim_start
trim_start-visible c s h = rw h refl

pub trim_end_whole : (d : Text) → All IsVisible d → trim_end d ≡ d
unfolding trim_end
trim_end_whole [] h = refl
trim_end_whole (c ∷ d) h = rw (h.0, trim_end_whole d h.1) refl

trimmed_tail : (c : ℕ) (s : Text) → trim_end (c ∷ s) ≡ c ∷ s → trim_end s ≡ s
unfolding trim_end
trimmed_tail c s e = elim (Bool-cases (is_whitespace c && is_nil (trim_end s))) [
  | inl gone ↦ let nothing : trim_end (c ∷ s) ≡ [] = rw gone refl in cc
  | inr kept ↦ let more : trim_end (c ∷ s) ≡ c ∷ trim_end s = rw kept refl in cc
]

-- A line that is trimmed ends in no carriage return.
pub strip_cr-trimmed : (s : Text) → trim_end s ≡ s → strip_cr s ≡ s
unfolding strip_cr trim_end
strip_cr-trimmed [] e = refl
strip_cr-trimmed (c ∷ []) e = elim (Bool-cases (c == 13)) [
  | inl cr ↦
      let is_cr : c ≡ 13 = ground (arith, cr) in
      let nothing : trim_end (c ∷ []) ≡ [] = rw is_cr refl in cc
  | inr other ↦ rw other refl
]
strip_cr-trimmed (c ∷ d ∷ s) e = ap (◌∷◌ c) (strip_cr-trimmed (d ∷ s) (trimmed_tail c (d ∷ s) e))

-- A predicate of the characters survives what takes some away.
module _ (P : ℕ → Type 0) where
  pub All-trim_start : (s : Text) → All P s → All P (trim_start s)
  unfolding trim_start
  All-trim_start [] h = tt
  All-trim_start (c ∷ s) h = elim (Bool-cases (is_whitespace c)) [
    | inl white ↦ rw white (All-trim_start s h.1)
    | inr visible ↦ rw visible h
  ]

  pub All-trim_end : (s : Text) → All P s → All P (trim_end s)
  unfolding trim_end
  All-trim_end [] h = tt
  All-trim_end (c ∷ s) h = elim (Bool-cases (is_whitespace c && is_nil (trim_end s))) [
    | inl gone ↦ rw gone tt
    | inr kept ↦ rw kept (h.0, All-trim_end s h.1)
  ]

  pub All-trim : (s : Text) → All P s → All P (trim s)
  All-trim s h = All-trim_end (trim_start s) (All-trim_start s h)

  pub All-after_word : (s : Text) → All P s → All P (after_word s)
  unfolding after_word
  All-after_word [] h = tt
  All-after_word (c ∷ s) h = elim (Bool-cases (is_whitespace c)) [
    | inl white ↦ rw white h
    | inr visible ↦ rw visible (All-after_word s h.1)
  ]

  pub All-before : (sep : ℕ) (s : Text) → All P s → All P (before sep s)
  unfolding before
  All-before sep [] h = tt
  All-before sep (c ∷ s) h = elim (Bool-cases (c == sep)) [
    | inl there ↦ rw there tt
    | inr other ↦ rw other (h.0, All-before sep s h.1)
  ]

pub before-All : (sep : ℕ) (s : Text) → All (λ c. c ≢ sep) (before sep s)
unfolding before
before-All sep [] = tt
before-All sep (c ∷ s) = elim (Bool-cases (c == sep)) [
  | inl there ↦ rw there tt
  | inr other ↦ rw other (ground (arith, other), before-All sep s)
]

pub before-absent : (sep : ℕ) (s : Text) → All (λ c. c ≢ sep) s → before sep s ≡ s
unfolding before
before-absent sep [] h = refl
before-absent sep (c ∷ s) h =
    let other : (c == sep) ≡ false = ground (arith, h.0) in
    rw other (ap (◌∷◌ c) (before-absent sep s h.1))

-- What `trim` gives is trimmed.
trim_start-cases :
    (s : Text) → (trim_start s ≡ []) ⊎ ((c : ℕ) × (u : Text) × (trim_start s ≡ c ∷ u) × IsVisible c)
unfolding trim_start
trim_start-cases [] = inl refl
trim_start-cases (c ∷ s) = elim (Bool-cases (is_whitespace c)) [
  | inl white ↦ rw white (trim_start-cases s)
  | inr visible ↦ inr (c, s, rw visible refl, visible)
]

trim_end_again : (s : Text) → trim_end (trim_end s) ≡ trim_end s
unfolding trim_end
trim_end_again [] = refl
trim_end_again (c ∷ s) = elim (Bool-cases (is_whitespace c && is_nil (trim_end s))) [
  | inl gone ↦ rw gone refl
  | inr kept ↦ rw (kept, trim_end_again s, kept) refl
]

trim_end-visible : (c : ℕ) (s : Text) → IsVisible c → trim_end (c ∷ s) ≡ c ∷ trim_end s
unfolding trim_end
trim_end-visible c s h = rw h refl

pub trim-IsTrimmed : (s : Text) → IsTrimmed (trim s)
unfolding trim_end trim_start trim
trim-IsTrimmed s = record {
  starts = elim (trim_start-cases s) [
    | inl empty ↦ rw empty refl
    | inr (c, u, there, visible) ↦
        rw (there, trim_end-visible c u visible) (trim_start-visible c (trim_end u) visible)
  ];
  ends = trim_end_again (trim_start s);
}
