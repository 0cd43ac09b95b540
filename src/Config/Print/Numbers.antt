-- ===== src/Config/Print/Numbers.antt =====
-- src/menu.rs, `push_num`, against the numbers that src/config.rs reads: `parse::<u64>`.
use bang.Common.{
  ℕ, zero, suc, ◌+◌, ◌-◌, ◌*◌, ◌/◌, ◌%◌, ◌^◌, ◌<◌, ◌≤◌, ◌≡◌, refl, ap, ◌∙◌, inl, inr, Bool, true,
  false, ◌&&◌, some, [], ◌∷◌, arith, All, leb, ltb, ◌==◌, Bool-cases, if◌then◌else◌,
}
use bang.Common.Text.{Text, is_nil, digits_value, parse_u64}
use bang.Menu.{low_digits, reversed, push_num}

abbrev ten_to : ℕ → ℕ
ten_to zero = 1
ten_to (suc k) = 10 * ten_to k

digits_value-reversed :
    (k n : ℕ) (acc : Text)
    → n < ten_to k
    → n < 2 ^ 64
    → digits_value 0 (reversed (low_digits k n) acc) ≡ digits_value n acc
unfolding low_digits digits_value
digits_value-reversed zero n acc small word = let nothing : n ≡ 0 = omega arith in rw nothing refl
digits_value-reversed (suc k) n acc small word = elim (Bool-cases (n == 0)) [
  | inl nothing ↦ let is_zero : n ≡ 0 = ground (arith, nothing) in rw (nothing, is_zero) refl
  | inr more ↦
      let value : n / 10 * 10 + (48 + n % 10 - 48) ≡ n = omega arith in
      let digit : (leb 48 (48 + n % 10) && leb (48 + n % 10) 57) && ltb n (2 ^ 64) ≡ true =
        ground arith in
      rw more (
        digits_value-reversed k (n / 10) ((48 + n % 10) ∷ acc) (omega arith) (omega arith)
        ∙ (rw (value, digit) refl))
]

abbrev pub IsDigit : ℕ → Type 0
IsDigit c = (48 ≤ c) × (c ≤ 57)

reversed-IsDigit :
    (k n : ℕ) (acc : Text) → All IsDigit acc → All IsDigit (reversed (low_digits k n) acc)
unfolding low_digits
reversed-IsDigit zero n acc h = h
reversed-IsDigit (suc k) n acc h = elim (Bool-cases (n == 0)) [
  | inl nothing ↦ rw nothing h
  | inr more ↦
      rw more (reversed-IsDigit k (n / 10) ((48 + n % 10) ∷ acc) ((omega arith, omega arith), h))
]

reversed_nonempty : (xs acc : Text) → is_nil acc ≡ false → is_nil (reversed xs acc) ≡ false
reversed_nonempty [] acc h = h
reversed_nonempty (x ∷ xs) acc h = reversed_nonempty xs (x ∷ acc) refl

low_digits_nonempty :
    (k n : ℕ) → (n == 0) ≡ false → is_nil (reversed (low_digits (suc k) n) []) ≡ false
unfolding low_digits
low_digits_nonempty k n h =
    rw h (reversed_nonempty (low_digits k (n / 10)) ((48 + n % 10) ∷ []) refl)

if_no : (b : Bool) (s t : Text) → b ≡ false → (if b then s else t) ≡ t
if_no b s t h = rw h refl

push_num-digits : (n : ℕ) → (n == 0) ≡ false → push_num [] n ≡ reversed (low_digits 20 n) []
unfolding push_num
push_num-digits n h = if_no (n == 0) _ _ h

push_num-zero : push_num [] 0 ≡ 48 ∷ []
unfolding push_num
push_num-zero = refl

pub push_num-IsDigit : (n : ℕ) → All IsDigit (push_num [] n)
push_num-IsDigit n = elim (Bool-cases (n == 0)) [
  | inl nothing ↦
      let is_zero : n ≡ 0 = ground (arith, nothing) in
      rw (is_zero, push_num-zero) ((omega arith, omega arith), tt)
  | inr more ↦ rw (push_num-digits n more) (reversed-IsDigit 20 n [] tt)
]

parse_u64-digits : (s : Text) → All IsDigit s → is_nil s ≡ false → parse_u64 s ≡ digits_value 0 s
unfolding parse_u64
parse_u64-digits [] h e = cc
parse_u64-digits (c ∷ s) h e = let digit : (c == 43) ≡ false = ground (arith, h.0) in rw digit refl

parse_u64-zero : parse_u64 (48 ∷ []) ≡ some 0
unfolding parse_u64
parse_u64-zero = refl

digits_value-end : (n : ℕ) → digits_value n [] ≡ some n
unfolding digits_value
digits_value-end n = refl

-- The number that the menu writes is the number that a configuration with those digits gives, for
-- every number of 64 bits.
pub parse_u64-push_num : (n : ℕ) → n < 2 ^ 64 → parse_u64 (push_num [] n) ≡ some n
parse_u64-push_num n word = elim (Bool-cases (n == 0)) [
  | inl nothing ↦
      let is_zero : n ≡ 0 = ground (arith, nothing) in rw (is_zero, push_num-zero) parse_u64-zero
  | inr more ↦
      let digits = reversed (low_digits 20 n) [] in
      ap parse_u64 (push_num-digits n more)
      ∙ parse_u64-digits digits (reversed-IsDigit 20 n [] tt) (low_digits_nonempty 19 n more)
      ∙ digits_value-reversed 20 n [] (omega arith) word
      ∙ digits_value-end n
]
