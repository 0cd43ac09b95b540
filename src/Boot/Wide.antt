-- ===== src/Boot/Wide.antt =====
-- src/main.rs, `wcslen`: the length of a string of 16-bit units, which ends before the first zero.
use bang.Common.{
  ℕ, zero, suc, ◌+◌, ◌≤◌, ◌<◌, ◌≡◌, ◌≢◌, refl, inl, inr, false, Option, none, some, arith, ◌==◌,
  if◌then◌else◌, Bool-cases,
}

-- The loop, on fuel, over what stands at each index from `s`; `none` is the end of the fuel.
unfoldable pub wcslen_from : (ℕ → ℕ) → ℕ → ℕ → Option ℕ
wcslen_from unit zero n = none
wcslen_from unit (suc fuel) n =
    let more = wcslen_from unit fuel (n + 1) in if unit n == 0 then some n else more

unfoldable pub wcslen : ℕ → (ℕ → ℕ) → Option ℕ
unfolding wcslen_from
wcslen fuel unit = wcslen_from unit fuel 0

-- The units before `n` are not zero.
abbrev HasNoEnd : (ℕ → ℕ) → ℕ → Type 0
HasNoEnd unit n = (i : ℕ) → i < n → unit i ≢ 0

one_more : (unit : ℕ → ℕ) (n : ℕ) → HasNoEnd unit n → unit n ≢ 0 → HasNoEnd unit (n + 1)
one_more unit n h e i lt = elim (Bool-cases (i == n)) [
  | inl here ↦ let same : i ≡ n = ground (arith, here) in rw same e
  | inr before ↦ let lower : i < n = ground (arith, before, lt) in h i lower
]

-- The first zero, found from where no unit before is one.
wcslen_from-first :
    (unit : ℕ → ℕ) (fuel n end : ℕ)
    → HasNoEnd unit end
    → unit end ≡ 0
    → n ≤ end
    → end < n + fuel
    → wcslen_from unit fuel n ≡ some end
unfolding wcslen_from
wcslen_from-first unit zero n end h z le lt = absurd (omega arith)
wcslen_from-first unit (suc fuel) n end h z le lt = elim (Bool-cases (n == end)) [
  | inl here ↦ let same : n ≡ end = ground (arith, here) in rw same (rw z refl)
  | inr before ↦
      let lower : n < end = ground (arith, before, le) in
      let more : (unit n == 0) ≡ false = ground (arith, h n lower) in
      rw more (wcslen_from-first unit fuel (n + 1) end h z (omega arith) (omega arith))
]

-- A string with its terminator within the fuel has the length at which its first zero stands.
pub wcslen-first :
    (unit : ℕ → ℕ) (fuel end : ℕ)
    → HasNoEnd unit end
    → unit end ≡ 0
    → end < fuel
    → wcslen fuel unit ≡ some end
unfolding wcslen
wcslen-first unit fuel end h z lt =
    wcslen_from-first unit fuel 0 end h z (omega arith) (omega arith)
