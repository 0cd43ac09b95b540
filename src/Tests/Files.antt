-- ===== src/Tests/Files.antt =====
-- A file that is the list of its bytes.
use bang.Common.{
  ℕ, zero, suc, ◌<◌, ◌≡◌, refl, ap, ◌∙◌, Option, some, List, [], ◌∷◌, ◌++◌, arith, length,
  length-take, take, drop,
}
use bang.Uefi.{FileReader}

-- A file that is a list of bytes, and gives as many as it is asked for.
abbrev pub read_asked : List ℕ → ℕ → Option (List ℕ) × List ℕ
read_asked f n = (some (take n f), drop n f)

pub take-drop : (n : ℕ) (xs : List ℕ) → xs ≡ take n xs ++ drop n xs
take-drop zero xs = refl
take-drop (suc n) [] = refl
take-drop (suc n) (x ∷ xs) = ap (◌∷◌ x) (take-drop n xs)

pub take_none : (n : ℕ) (xs : List ℕ) → 0 < n → take n xs ≡ [] → xs ≡ []
take_none zero xs h e = absurd (omega arith)
take_none (suc n) [] h e = refl
take_none (suc n) (x ∷ xs) h e = cc

pub pair-inj :
    {A B : Type 0} {a a' : A} {b b' : B}
    → ◌≡◌ {A = Option A × B} (some a, b) (some a', b')
    → (a ≡ a') × (b ≡ b')
pair-inj e = (cc (ap (λ p. p.0) e), ap (λ p. p.1) e)

abbrev pub listed_file : FileReader
listed_file = record {
  F = List ℕ;
  read_some = read_asked;
  left = λ f. f;
  gives_next = λ f f' n bs e.
      let (got, rest) = pair-inj e in
      (
        (take-drop n f ∙ ap (λ b. b ++ drop n f) got) ∙ ap (λ r. bs ++ r) rest,
        omega (arith, length-take n f, ap length got),
      );
  gives_some = λ f f' n h e. let (got, rest) = pair-inj e in take_none n f h got;
}
