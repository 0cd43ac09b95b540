-- ===== src/Config/Print/Bounds.antt =====
-- src/config.rs: the numbers that `parse::<u64>` gives.
use bang.Common.{
  ℕ, ◌+◌, ◌*◌, ◌-◌, ◌<◌, ◌^◌, ◌≡◌, refl, sym, ◌∙◌, inl, inr, Bool, ◌&&◌, Option, none, some, [],
  ◌∷◌, arith, ltb, leb, ◌==◌, Bool-cases,
}
use bang.Common.Text.{Text, is_nil, digits_value, parse_u64}
use bang.Config.{or_five}

digits_value-word :
    (acc : ℕ) (s : Text) (n : ℕ) → acc < 2 ^ 64 → digits_value acc s ≡ some n → n < 2 ^ 64
unfolding digits_value
digits_value-word acc [] n word e = let same : acc ≡ n = cc in omega (arith, same, word)
digits_value-word acc (c ∷ s) n word e =
    let value : ℕ = acc * 10 + (c - 48) in
    let fits : Bool = (leb 48 c && leb c 57) && ltb value (2 ^ 64) in
    elim (Bool-cases fits) [
      | inl ok ↦
          let next : digits_value acc (c ∷ s) ≡ digits_value value s = rw ok refl in
          digits_value-word value s n (ground (arith, ok)) (sym next ∙ e)
      | inr bad ↦ let nothing : digits_value acc (c ∷ s) ≡ none = rw bad refl in absurd cc
    ]

pub parse_u64-word : (s : Text) (n : ℕ) → parse_u64 s ≡ some n → n < 2 ^ 64
unfolding parse_u64
parse_u64-word [] n e = absurd cc
parse_u64-word (c ∷ s) n e = elim (Bool-cases (c == b'+')) [
  | inl plus ↦ elim (Bool-cases (is_nil s)) [
    | inl alone ↦ let nothing : parse_u64 (c ∷ s) ≡ none = rw (plus, alone) refl in absurd cc
    | inr digits ↦
        let rest : parse_u64 (c ∷ s) ≡ digits_value 0 s = rw (plus, digits) refl in
        digits_value-word 0 s n (omega arith) (sym rest ∙ e)
  ]
  | inr other ↦
      let all : parse_u64 (c ∷ s) ≡ digits_value 0 (c ∷ s) = rw other refl in
      digits_value-word 0 (c ∷ s) n (omega arith) (sym all ∙ e)
]

pub or_five-word : (o : Option ℕ) → ((n : ℕ) → o ≡ some n → n < 2 ^ 64) → or_five o < 2 ^ 64
or_five-word none h = omega arith
or_five-word (some n) h = h n refl
