-- ===== src/Linux/Reading/Whole.antt =====
-- src/linux.rs: `read_file` ends, and gives the whole file or says why not.
use bang.Common.{
  ℕ, zero, suc, ◌+◌, ◌-◌, ◌≤◌, ◌<◌, ◌≡◌, refl, sym, ap, subst, ◌∙◌, ◌⊎◌, inl, inr, true, false,
  Option, none, some, List, [], ◌∷◌, ◌++◌, append_assoc, arith, ltb, ltb→lt, ltb→le, ◌==◌, length,
  length-append, take, Bool-cases,
}
use bang.Common.Text.{Text}
use bang.Linux.Reading.{Read, whole, unread, checked, read_rest, read_file}
use bang.Uefi.{FileReader}

take_append : (n : ℕ) (xs ys : List ℕ) → length xs ≡ n → take n (xs ++ ys) ≡ xs
take_append zero [] ys h = refl
take_append zero (x ∷ xs) ys h = absurd (omega arith)
take_append (suc n) [] ys h = absurd (omega arith)
take_append (suc n) (x ∷ xs) ys h = ap (◌∷◌ x) (take_append n xs ys (omega arith))

Answer-cases :
    (o : Option (List ℕ))
    → (o ≡ none) ⊎ ((o ≡ some []) ⊎ ((b : ℕ) × (bs : List ℕ) × (o ≡ some (b ∷ bs))))
Answer-cases none = inl refl
Answer-cases (some []) = inr (inl refl)
Answer-cases (some (b ∷ bs)) = inr (inr (b, bs, refl))

module _ (r : FileReader) where
  open r use {F, read_some, left, gives_next, gives_some}

  -- The first `size` of the bytes, or nothing because there are fewer or because a read for the rest
  -- has failed, with some of them read.
  pub data IsRead (size : ℕ) (bytes : List ℕ) : Read → Type 0 where
    complete : size ≤ length bytes → IsRead size bytes (whole (take size bytes))
    ended : length bytes < size → IsRead size bytes unread
    failed :
        (f : F) (front : List ℕ)
        → bytes ≡ front ++ left f
        → length front < size
        → (read_some f (size - length front)).0 ≡ none
        → IsRead size bytes unread

  checked-unread : (size : ℕ) (bytes : List ℕ) → length bytes < size → checked size bytes ≡ unread
  checked-unread size bytes h =
      let no : (length bytes == size) ≡ false = ground (arith, h) in rw no refl

  checked-whole :
      (size : ℕ) (bytes more : List ℕ)
      → length bytes ≡ size
      → checked size bytes ≡ whole (take size (bytes ++ more))
  checked-whole size bytes more h =
      let yes : (length bytes == size) ≡ true = ground (arith, h) in
      rw yes (ap whole (sym (take_append size bytes more h)))

  read_rest-IsRead :
      (fuel size : ℕ) (f : F) (bytes : List ℕ)
      → length bytes ≤ size
      → size < fuel + length bytes
      → IsRead size (bytes ++ left f) (read_rest read_some fuel size f bytes)
  unfolding read_rest
  read_rest-IsRead zero size f bytes h e = absurd (omega arith)
  read_rest-IsRead (suc fuel) size f bytes h e = elim (Bool-cases (ltb (length bytes) size)) [
    | inr all ↦
        let exact : length bytes ≡ size = omega (arith, ltb→le _ _ all) in
        same (rw (read_rest, all) (checked-whole size bytes (left f) exact))
          (complete (omega (arith, exact, length-append bytes (left f))))
    | inl more ↦ elim (Answer-cases (read_some f (size - length bytes)).0) [
      | inl error ↦
          same (rw (read_rest, more, error) (checked-unread size bytes (ltb→lt _ _ more)))
            (failed f bytes refl (ltb→lt _ _ more) error)
      | inr (inl empty) ↦
          let n = size - length bytes in
          let all_read =
            gives_some f (read_some f n).1 n (omega (arith, ltb→lt _ _ more))
              (ap (λ o. (o, (read_some f n).1)) empty) in
          same (rw (read_rest, more, empty) (checked-unread size bytes (ltb→lt _ _ more))) (
            ended
              (omega (arith, ltb→lt _ _ more, length-append bytes (left f), ap length all_read)))
      | inr (inr (b, bs, got)) ↦
          let n = size - length bytes in
          let f' = (read_some f n).1 in
          let (next, fits) = gives_next f f' n (b ∷ bs) (ap (λ o. (o, f')) got) in
          let longer = length-append bytes (b ∷ bs) in
          let rest : bytes ++ left f ≡ (bytes ++ b ∷ bs) ++ left f' =
            ap (λ more. bytes ++ more) next ∙ sym (append_assoc bytes (b ∷ bs) (left f')) in
          same (rw (read_rest, more, got) refl) (
            subst (λ all. IsRead size all (read_rest read_some fuel size f' (bytes ++ b ∷ bs)))
              (sym rest)
              (read_rest-IsRead fuel size f' (bytes ++ b ∷ bs)
                (omega (arith, fits, longer, ltb→lt _ _ more)) (omega (arith, longer))))
    ]
  ]
    where
      same :
          {result : Read}
          → read_rest read_some (suc fuel) size f bytes ≡ result
          → IsRead size (bytes ++ left f) result
          → IsRead size (bytes ++ left f) (read_rest read_some (suc fuel) size f bytes)
      same p = subst (λ x. IsRead size (bytes ++ left f) x) (sym p)

  -- With more rounds than the file has bytes `read_file` ends, on any file that opens: it returns
  -- the first bytes, as many as the file's size says, however the firmware splits the reads, and
  -- nothing only if there are fewer or a read for those that are missing has failed.
  pub read_file-IsRead :
      (open_file : Text → Option (ℕ × F)) (fuel : ℕ) (path : Text) (size : ℕ) (f : F)
      → open_file path ≡ some (size, f)
      → size < fuel
      → IsRead size (left f) (read_file read_some open_file fuel path)
  unfolding read_file
  read_file-IsRead open_file fuel path size f opens e =
      subst (λ x. IsRead size (left f) x) (sym (rw (read_file, opens) refl))
        (read_rest-IsRead fuel size f [] (omega arith) (omega arith))
