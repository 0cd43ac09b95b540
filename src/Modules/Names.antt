-- ===== src/Modules/Names.antt =====
-- src/modules.rs: `store_name` keeps to its buffer, and every name stays as it was stored.
use bang.Common.{
  ℕ, zero, suc, ◌+◌, ◌-◌, ◌≤◌, ◌<◌, ◌≡◌, ◌≢◌, refl, ap, ap₂, ◌∙◌, ◌⊎◌, inl, inr, true, false, ◌||◌,
  List, [], ◌∷◌, ◌++◌, arith, leb, ltb, leb→le, leb→lt, ltb→lt, ltb→le, ◌==◌, if◌then◌else◌, length,
  Memory, write_before, write_after, write_inside, read, read_snoc, read_congr, Bool-cases,
}
use bang.Modules.{cap, NameBuffer, put, to_ascii, write_name, store_name}

-- The characters of a name up to its terminator, cut to `room`, as the bytes that stand for them.
abbrev pub ascii : ℕ → List ℕ → List ℕ
ascii zero name = []
ascii (suc room) [] = []
ascii (suc room) (val ∷ name) = if val == 0 then [] else to_ascii val ∷ ascii room name

-- The position is in the buffer or right behind it, and the byte before it is a terminator.
pub record IsNameBuffer (at : ℕ) (b : NameBuffer) : Type 0 where
  pub within : b.pos ≤ cap
  pub terminated : (b.pos ≡ 0) ⊎ (b.mem (at + (b.pos - 1)) ≡ 0)

-- The loop has written the bytes `bs` at `from`, and nothing else.
record IsWritten (from : ℕ) (bs : List ℕ) (before : Memory) (written : ℕ) (r : ℕ × Memory)
    : Type 0 where
  count : r.0 ≡ written + length bs
  bytes : read (length bs) from r.1 ≡ bs
  frame : (a : ℕ) → (a < from) ⊎ (from + length bs ≤ a) → r.1 a ≡ before a

length-ascii : (room : ℕ) (name : List ℕ) → length (ascii room name) ≤ room
length-ascii zero name = omega arith
length-ascii (suc room) [] = omega arith
length-ascii (suc room) (val ∷ name) = ground (arith, length-ascii room name)

put_self : (at i b : ℕ) (m : Memory) → put at i b m (at + i) ≡ b
put_self at i b m =
    let there : at + i + 0 ≡ at + i = omega arith in
    rw there at (write_inside (at + i) (b ∷ []) m 0)

put_other : (at i b : ℕ) (m : Memory) (a : ℕ) → a ≢ at + i → put at i b m a ≡ m a
put_other at i b m a h = elim (Bool-cases (ltb a (at + i))) [
  | inl below ↦ write_before (at + i) (b ∷ []) m a (ltb→lt _ _ below)
  | inr above ↦
      let p : at + i ≤ a = ltb→le _ _ above in write_after (at + i) (b ∷ []) m a (omega arith)
]

IsWritten-nil : (from written : ℕ) (m : Memory) → IsWritten from [] m written (written, m)
IsWritten-nil from written m = record { count = omega arith; bytes = refl; frame = λ a p. refl }

IsWritten-cons :
    (at i b written : ℕ) (bs : List ℕ) (m : Memory) (r : ℕ × Memory)
    → IsWritten (at + i + 1) bs (put at i b m) (written + 1) r
    → IsWritten (at + i) (b ∷ bs) m written r
IsWritten-cons at i b written bs m r w = record {
  count = omega (arith, w.count);
  bytes = ap₂ ◌∷◌ (w.frame (at + i) (inl (omega arith)) ∙ put_self at i b m) w.bytes;
  frame = λ a p. w.frame a (omega arith) ∙ put_other at i b m a (omega arith);
}

write_name-IsWritten :
    (at pos room written : ℕ) (name : List ℕ) (m : Memory)
    → pos + written + room ≡ cap - 1
    → IsWritten
        (at + (pos + written))
        (ascii room name)
        m
        written
        (write_name at pos name written m)
unfolding write_name
write_name-IsWritten at pos zero written [] m h = IsWritten-nil (at + (pos + written)) written m
write_name-IsWritten at pos (suc room) written [] m h =
    IsWritten-nil (at + (pos + written)) written m
write_name-IsWritten at pos zero written (val ∷ name) m h =
    let full : (val == 0 || leb (cap - 1) (pos + written)) ≡ true = ground arith in
    rw full (IsWritten-nil (at + (pos + written)) written m)
write_name-IsWritten at pos (suc room) written (val ∷ name) m h = elim (Bool-cases (val == 0)) [
  | inl end ↦ rw end (IsWritten-nil (at + (pos + written)) written m)
  | inr more ↦
      let room_left : leb (cap - 1) (pos + written) ≡ false = ground arith in
      let there : at + (pos + (written + 1)) ≡ at + (pos + written) + 1 = omega arith in
      let rest =
        write_name-IsWritten at pos room (written + 1) name
          (put at (pos + written) (to_ascii val) m) (omega arith) in
      rw (more, room_left)
        (IsWritten-cons at (pos + written) (to_ascii val) written (ascii room name) m _
          (rw there at rest))
]

-- What storing a name does to a buffer at `at`, with what it returns.
pub record IsStored (at : ℕ) (name : List ℕ) (b : NameBuffer) (r : ℕ × NameBuffer) : Type 0 where
  pub buffer : IsNameBuffer at r.1
  pub kept : (a : ℕ) → (a < at + b.pos) ⊎ (at + cap ≤ a) → r.1.mem a ≡ b.mem a
  pub grows : b.pos ≤ r.1.pos
  pub string :
      read (suc (length (ascii (cap - 1 - b.pos) name))) r.0 r.1.mem
      ≡ ascii (cap - 1 - b.pos) name ++ 0 ∷ []

-- Storing a name in a buffer that satisfies the invariant: the buffer satisfies it again; no byte
-- outside the buffer changes, nor any byte of an earlier name; and at the address returned stands,
-- with its terminator, the name with `?` for each character beyond ASCII, cut to the room left. A
-- full buffer gives the address of the last terminator, the empty name.
pub store_name-IsStored :
    (at : ℕ) (name : List ℕ) (b : NameBuffer)
    → IsNameBuffer at b
    → IsStored at name b (store_name at name b)
unfolding store_name
store_name-IsStored at name b v = elim (Bool-cases (leb cap b.pos)) [
  | inl full ↦
      let at_end : b.pos ≡ cap = omega (arith, v.within, leb→le _ _ full) in
      let no_room : cap - 1 - b.pos ≡ 0 = omega arith in
      rw full (record {
        buffer = v;
        kept = λ a p. refl;
        grows = omega arith;
        string =
            rw no_room (ap (◌∷◌ (b.mem (at + (cap - 1)))) refl ∙ ap (λ c. c ∷ []) (last at_end));
      })
  | inr free ↦
      let room = cap - 1 - b.pos in
      let r = write_name at b.pos name 0 b.mem in
      let w = write_name-IsWritten at b.pos room 0 name b.mem (omega (arith, leb→lt _ _ free)) in
      rw free (stored (leb→lt _ _ free) r (rw plain at w))
]
  where
    plain : at + (b.pos + 0) ≡ at + b.pos
    plain = omega arith

    last : b.pos ≡ cap → b.mem (at + (cap - 1)) ≡ 0
    last e = elim v.terminated [
      | inl zero_pos ↦ absurd (omega arith)
      | inr t ↦ let there : b.pos - 1 ≡ cap - 1 = omega arith in rw there at t
    ]

    stored :
        b.pos < cap
        → (r : ℕ × Memory) → IsWritten (at + b.pos) (ascii (cap - 1 - b.pos) name) b.mem 0 r
        → IsStored at name b
            (at + b.pos, record { mem = put at (b.pos + r.0) 0 r.1; pos = b.pos + r.0 + 1 })
    stored free r w =
        let bs = ascii (cap - 1 - b.pos) name in
        let short = length-ascii (cap - 1 - b.pos) name in
        let end : b.pos + r.0 + 1 - 1 ≡ b.pos + r.0 = omega arith in
        let after_name : at + b.pos + length bs ≡ at + (b.pos + r.0) = omega (arith, w.count) in
        record {
          buffer = record {
            within = omega (arith, w.count, short);
            terminated = inr (rw end (put_self at (b.pos + r.0) 0 r.1));
          };
          kept = λ a p.
              put_other at (b.pos + r.0) 0 r.1 a (omega (arith, w.count, short, p))
              ∙ w.frame a (omega (arith, w.count, short, p));
          grows = omega arith;
          string =
              read_snoc (length bs) (at + b.pos) (put at (b.pos + r.0) 0 r.1)
              ∙ ap₂ (λ s c. s ++ c ∷ [])
                  (read_congr (length bs) (at + b.pos) (put at (b.pos + r.0) 0 r.1) r.1
                      (λ a lo hi. put_other at (b.pos + r.0) 0 r.1 a (omega arith))
                    ∙ w.bytes)
                  (ap (put at (b.pos + r.0) 0 r.1) after_name ∙ put_self at (b.pos + r.0) 0 r.1);
        }

-- The string that is stored lies in the buffer, before the new position.
pub store_name_inside :
    (at : ℕ) (name : List ℕ) (b : NameBuffer)
    → IsNameBuffer at b
    → (at ≤ (store_name at name b).0)
      × ((store_name at name b).0 + suc (length (ascii (cap - 1 - b.pos) name))
          ≤ at + (store_name at name b).1.pos)
unfolding store_name
store_name_inside at name b v = elim (Bool-cases (leb cap b.pos)) [
  | inl full ↦
      let at_end : b.pos ≡ cap = omega (arith, v.within, leb→le _ _ full) in
      let short = length-ascii (cap - 1 - b.pos) name in rw full (omega arith, omega arith)
  | inr free ↦
      let room = cap - 1 - b.pos in
      let w = write_name-IsWritten at b.pos room 0 name b.mem (omega (arith, leb→lt _ _ free)) in
      let r = write_name at b.pos name 0 b.mem in
      let written : r.0 ≡ length (ascii room name) = omega (arith, w.count) in
      rw free (omega arith, omega (arith, written))
]
