-- ===== src/Linux/Command/Cut.antt =====
-- src/linux.rs: where the command line is cut, and where cutting it panics.
use bang.Common.{
  ℕ, zero, suc, ◌+◌, ◌-◌, ◌≤◌, ◌<◌, ◌≡◌, refl, sym, ap, subst, ◌∙◌, ◌⊎◌, inl, inr, true, false,
  ◌&&◌, ◌||◌, Option, none, some, List, [], ◌∷◌, ◌++◌, append_assoc, arith, ltb, leb, ltb→lt,
  ltb→le, ◌==◌, if◌then◌else◌, length, length-append, take, take-append, get_or, get_or-append_left,
  get_or-append_right, Bool-cases,
}
use bang.Common.Text.{Text}
use bang.Common.Text.Utf8.{utf8, utf8_bytes}
use bang.Linux.Command.{is_char_boundary, command_line}

-- What becomes of a command line: it is short enough, cut between two characters, or the cut would
-- go through a character.
pub data IsCut (most : ℕ) (cmdline : Text) : Option (List ℕ) → Type 0 where
  uncut :
      (most ≡ 0) ⊎ (length (utf8_bytes cmdline) ≤ most)
      → IsCut most cmdline (some (utf8_bytes cmdline))
  cut :
      (pre post : Text)
      → cmdline ≡ pre ++ post
      → length (utf8_bytes pre) ≡ most
      → IsCut most cmdline (some (utf8_bytes pre))
  splits :
      (pre post : Text) (c : ℕ)
      → cmdline ≡ pre ++ c ∷ post
      → length (utf8_bytes pre) < most
      → most < length (utf8_bytes pre) + length (utf8 c)
      → IsCut most cmdline none

-- The character that has the byte at `most`.
record Character (most : ℕ) (cs : Text) : Type 0 where
  pre : Text
  c : ℕ
  post : Text
  parts : cs ≡ pre ++ c ∷ post
  bytes : utf8_bytes cs ≡ utf8_bytes pre ++ (utf8 c ++ utf8_bytes post)
  starts : length (utf8_bytes pre) ≤ most
  ends : most < length (utf8_bytes pre) + length (utf8 c)

Character-at : (most : ℕ) (cs : Text) → most < length (utf8_bytes cs) → Character most cs
unfolding utf8_bytes
Character-at most [] h = absurd (omega arith)
Character-at most (c ∷ cs) h = elim (Bool-cases (ltb most (length (utf8 c)))) [
  | inl inside ↦ record {
    pre = [];
    c = c;
    post = cs;
    parts = refl;
    bytes = refl;
    starts = omega arith;
    ends = omega (arith, ltb→lt _ _ inside);
  }
  | inr behind ↦
      let longer = length-append (utf8 c) (utf8_bytes cs) in
      let rest =
        Character-at (most - length (utf8 c)) cs (omega (arith, h, longer, ltb→le _ _ behind)) in
      let pre = length-append (utf8 c) (utf8_bytes rest.pre) in
      record {
        pre = c ∷ rest.pre;
        c = rest.c;
        post = rest.post;
        parts = ap (◌∷◌ c) rest.parts;
        bytes =
            ap (λ bs. utf8 c ++ bs) rest.bytes
            ∙ sym
                (append_assoc (utf8 c) (utf8_bytes rest.pre) (utf8 rest.c ++ utf8_bytes rest.post));
        starts = omega (arith, pre, rest.starts, ltb→le _ _ behind);
        ends = omega (arith, pre, rest.ends, ltb→le _ _ behind);
      }
]

utf8_first : (c : ℕ) → (ltb (get_or (utf8 c) 0 0) 0x80 || leb 0xc0 (get_or (utf8 c) 0 0)) ≡ true
unfolding utf8
utf8_first c = ground arith

utf8_inner :
    (c k : ℕ)
    → 0 < k
    → k < length (utf8 c)
    → (ltb (get_or (utf8 c) k 0) 0x80 || leb 0xc0 (get_or (utf8 c) k 0)) ≡ false
unfolding utf8
utf8_inner c zero h e = absurd (omega arith)
utf8_inner c (suc zero) h e = ground arith
utf8_inner c (suc (suc zero)) h e = ground arith
utf8_inner c (suc (suc (suc zero))) h e = ground arith
utf8_inner c (suc (suc (suc (suc k)))) h e = absurd (ground arith)

starts_character :
    (n len b : ℕ)
    → (ltb b 0x80 || leb 0xc0 b) ≡ true
    → (n == 0 || n == len || ltb b 0x80 || leb 0xc0 b) ≡ true
starts_character n len b h = ground arith

continues :
    (n len b : ℕ)
    → 0 < n
    → n < len
    → (ltb b 0x80 || leb 0xc0 b) ≡ false
    → (n == 0 || n == len || ltb b 0x80 || leb 0xc0 b) ≡ false
continues n len b lo hi h = ground arith

short_enough : (most len : ℕ) → (ltb 0 most && ltb most len) ≡ false → (most ≡ 0) ⊎ (len ≤ most)
short_enough most len h = ground arith

too_long : (most len : ℕ) → (ltb 0 most && ltb most len) ≡ true → (0 < most) × (most < len)
too_long most len h = ground arith

module _ (most : ℕ) (cs : Text) (ch : Character most cs) where
  -- The byte at `most`.
  byte_at : get_or (utf8_bytes cs) most 0 ≡ get_or (utf8 ch.c) (most - length (utf8_bytes ch.pre)) 0
  byte_at =
      ap (λ bs. get_or bs most 0) ch.bytes
      ∙ get_or-append_right (utf8_bytes ch.pre) (utf8 ch.c ++ utf8_bytes ch.post) most 0 ch.starts
      ∙ get_or-append_left (utf8 ch.c) (utf8_bytes ch.post) (most - length (utf8_bytes ch.pre)) 0
          (omega (arith, ch.starts, ch.ends))

  -- Between two characters.
  between_IsCut :
      0 < most
      → most < length (utf8_bytes cs)
      → most ≡ length (utf8_bytes ch.pre)
      → IsCut most cs
          (if is_char_boundary (utf8_bytes cs) most then some (take most (utf8_bytes cs)) else none)
  between_IsCut room longer at_pre =
      let none_in : most - length (utf8_bytes ch.pre) ≡ 0 = omega (arith, at_pre) in
      let first : get_or (utf8_bytes cs) most 0 ≡ get_or (utf8 ch.c) 0 0 =
        byte_at ∙ ap (λ k. get_or (utf8 ch.c) k 0) none_in in
      let boundary : is_char_boundary (utf8_bytes cs) most ≡ true =
        starts_character most (length (utf8_bytes cs)) (get_or (utf8_bytes cs) most 0)
          (rw first (utf8_first ch.c)) in
      let taken : take most (utf8_bytes cs) ≡ utf8_bytes ch.pre =
        ap (λ n. take n (utf8_bytes cs)) at_pre
        ∙ ap (take (length (utf8_bytes ch.pre))) ch.bytes
        ∙ take-append (utf8_bytes ch.pre) (utf8 ch.c ++ utf8_bytes ch.post) in
      subst (IsCut most cs) (sym (rw boundary (ap some taken)))
        (cut ch.pre (ch.c ∷ ch.post) ch.parts (sym at_pre))

  -- Inside a character.
  inside_IsCut :
      0 < most
      → most < length (utf8_bytes cs)
      → length (utf8_bytes ch.pre) < most
      → IsCut most cs
          (if is_char_boundary (utf8_bytes cs) most then some (take most (utf8_bytes cs)) else none)
  inside_IsCut room longer beyond =
      let inner : is_char_boundary (utf8_bytes cs) most ≡ false =
        continues most (length (utf8_bytes cs)) (get_or (utf8_bytes cs) most 0) room longer (
          rw byte_at (
            utf8_inner ch.c (most - length (utf8_bytes ch.pre)) (omega (arith, beyond))
              (omega (arith, ch.starts, ch.ends)))) in
      subst (IsCut most cs) (sym (rw inner refl))
        (splits ch.pre ch.post ch.c ch.parts beyond ch.ends)

-- Every command line, with the size that the header allows: none is allowed for or it fits, and it
-- is whole; else it is cut where its first characters take exactly that size; else, where the cut
-- would fall inside a character, the code panics.
pub command_line-IsCut :
    (most : ℕ) (cmdline : Text) → IsCut most cmdline (command_line most cmdline)
unfolding command_line
command_line-IsCut most cs = elim (Bool-cases (ltb 0 most && ltb most (length (utf8_bytes cs)))) [
  | inr short ↦ same (rw short refl) (uncut (short_enough most (length (utf8_bytes cs)) short))
  | inl long ↦
      let (room, longer) = too_long most (length (utf8_bytes cs)) long in
      let ch = Character-at most cs longer in
      elim (Bool-cases (most == length (utf8_bytes ch.pre))) [
        | inl between ↦
            same (rw long refl) (between_IsCut most cs ch room longer (ground (arith, between)))
        | inr inside ↦
            same (rw long refl)
              (inside_IsCut most cs ch room longer (ground (arith, inside, ch.starts)))
      ]
]
  where
    same :
        {o : Option (List ℕ)}
        → command_line most cs ≡ o
        → IsCut most cs o
        → IsCut most cs (command_line most cs)
    same p = subst (IsCut most cs) (sym p)
