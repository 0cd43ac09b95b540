-- ===== src/Common/Bytes.antt =====
-- Little-endian numbers, and byte-addressed memory as a function from addresses.
use Prim.Native.Nat.{ℕ, zero, suc, ◌+◌, ◌-◌, ◌*◌, ◌/◌, ◌%◌, ◌^◌, ◌<◌, ◌≤◌}
use mathlib.Core.Path.{◌≡◌, refl, ap, ap₂, ◌∙◌}
use mathlib.Core.Logic.{◌⊎◌, inl, inr}
use mathlib.Core.Bool.{◌&&◌}
use mathlib.Core.List.{List, [], ◌∷◌, ◌++◌}
use native.Mathlib.Omega.{arith}
use bang.Common.Tests.{ltb, leb, if◌then◌else◌}
use bang.Common.Lists.{length, get_or, get_or_past, get_or_default}

-- The low `n` bytes of `v`, lowest first: `to_le_bytes` of a value cast to `n` bytes.
abbrev pub le_bytes : ℕ → ℕ → List ℕ
le_bytes zero v = []
le_bytes (suc n) v = (v % 256) ∷ le_bytes n (v / 256)

-- `from_le_bytes`.
abbrev pub from_le : List ℕ → ℕ
from_le [] = 0
from_le (b ∷ bs) = b + 256 * from_le bs

abbrev pub Memory : Type 0
Memory = ℕ → ℕ

-- `copy_nonoverlapping` of the bytes `bs` to the address `at`, and `write_unaligned` of their
-- value.
unfoldable pub write : ℕ → List ℕ → Memory → Memory
write at bs m a = if ltb a at then m a else get_or bs (a - at) (m a)

-- `write_bytes(at, v, n)`.
unfoldable pub fill : ℕ → ℕ → ℕ → Memory → Memory
fill at v n m a = if leb at a && ltb a (at + n) then v else m a

-- The `n` bytes from the address `at`.
abbrev pub read : ℕ → ℕ → Memory → List ℕ
read zero at m = []
read (suc n) at m = m at ∷ read n (at + 1) m

pub length-le_bytes : (n v : ℕ) → length (le_bytes n v) ≡ n
length-le_bytes zero v = refl
length-le_bytes (suc n) v = ap suc (length-le_bytes n (v / 256))

pub length-read : (n at : ℕ) (m : Memory) → length (read n at m) ≡ n
length-read zero at m = refl
length-read (suc n) at m = ap suc (length-read n (at + 1) m)

pub write_before : (at : ℕ) (bs : List ℕ) (m : Memory) (a : ℕ) → a < at → write at bs m a ≡ m a
unfolding write
write_before at bs m a h = ground arith

pub write_after :
    (at : ℕ) (bs : List ℕ) (m : Memory) (a : ℕ) → at + length bs ≤ a → write at bs m a ≡ m a
unfolding write
write_after at bs m a h = ground (arith, get_or_past bs (a - at) (m a))

pub write_inside :
    (at : ℕ) (bs : List ℕ) (m : Memory) (i : ℕ) → write at bs m (at + i) ≡ get_or bs i (m (at + i))
unfolding write
write_inside at bs m i = ground (arith, ap (λ (j : ℕ). get_or bs j (m (at + i))) same)
  where
    same : at + i - at ≡ i
    same = omega arith

pub fill_inside : (at v n : ℕ) (m : Memory) (i : ℕ) → i < n → fill at v n m (at + i) ≡ v
unfolding fill
fill_inside at v n m i h = ground arith

pub fill_outside :
    (at v n : ℕ) (m : Memory) (a : ℕ) → (a < at) ⊎ (at + n ≤ a) → fill at v n m a ≡ m a
unfolding fill
fill_outside at v n m a h = ground arith

-- A region read elsewhere than where it was written is as before.
pub read_congr :
    (n at : ℕ) (m m' : Memory)
    → ((a : ℕ) → at ≤ a → a < at + n → m a ≡ m' a)
    → read n at m ≡ read n at m'
read_congr zero at m m' h = refl
read_congr (suc n) at m m' h =
    ap₂ ◌∷◌ (h at (omega arith) (omega arith))
      (read_congr n (at + 1) m m' (λ a p q. h a (omega arith) (omega arith)))

-- The last of the bytes read, apart.
pub read_snoc : (n at : ℕ) (m : Memory) → read (suc n) at m ≡ read n at m ++ m (at + n) ∷ []
read_snoc zero at m = ap (λ a. m a ∷ []) (omega arith)
read_snoc (suc n) at m =
    let there : at + 1 + n ≡ at + suc n = omega arith in
    ap (◌∷◌ (m at)) (read_snoc n (at + 1) m ∙ ap (λ a. read n (at + 1) m ++ m a ∷ []) there)

pub get_or-read : (n at : ℕ) (m : Memory) (i d : ℕ) → i < n → get_or (read n at m) i d ≡ m (at + i)
get_or-read zero at m i d h = absurd (omega arith)
get_or-read (suc n) at m zero d h = ap m (omega arith)
get_or-read (suc n) at m (suc i) d h =
    get_or-read n (at + 1) m i d (omega arith) ∙ ap m (omega arith)

-- A 32-bit and a 64-bit field give back what was written, cut to their width.
pub from_le-le_bytes4 : (v : ℕ) → from_le (le_bytes 4 v) ≡ v % 2 ^ 32
from_le-le_bytes4 v = omega arith

pub from_le-le_bytes8 : (v : ℕ) → from_le (le_bytes 8 v) ≡ v % 2 ^ 64
from_le-le_bytes8 v = omega arith

pub read_append : (n k at : ℕ) (m : Memory) → read (n + k) at m ≡ read n at m ++ read k (at + n) m
read_append zero k at m =
    let there : at + 0 ≡ at = omega arith in
    let none_first : 0 + k ≡ k = omega arith in rw (there, none_first) refl
read_append (suc n) k at m =
    let there : at + 1 + n ≡ at + suc n = omega arith in
    let more : suc n + k ≡ suc (n + k) = omega arith in
    ap (λ j. read j at m) more
    ∙ ap (◌∷◌ (m at)) (read_append n k (at + 1) m ∙ ap (λ a. read n (at + 1) m ++ read k a m) there)

pub write_away :
    (at : ℕ) (bs : List ℕ) (m : Memory) (a : ℕ)
    → (a < at) ⊎ (at + length bs ≤ a)
    → write at bs m a ≡ m a
write_away at bs m a (inl h) = write_before at bs m a h
write_away at bs m a (inr h) = write_after at bs m a h

pub write_cons : (at b : ℕ) (bs : List ℕ) (m : Memory) → write at (b ∷ bs) m at ≡ b
write_cons at b bs m =
    let there : at + 0 ≡ at = omega arith in rw there at (write_inside at (b ∷ bs) m 0)

pub read_is :
    (at : ℕ) (cs : List ℕ) (m : Memory)
    → ((i : ℕ) → i < length cs → m (at + i) ≡ get_or cs i 0)
    → read (length cs) at m ≡ cs
read_is at [] m h = refl
read_is at (c ∷ cs) m h =
    let first : at + 0 ≡ at = omega arith in
    ap₂ ◌∷◌ (rw first at (h 0 (omega arith))) (
      read_is (at + 1) cs m (λ i d.
        let there : at + 1 + i ≡ at + suc i = omega arith in rw there (h (suc i) (omega arith))))

-- What was written is read back.
pub read-write : (at : ℕ) (bs : List ℕ) (m : Memory) → read (length bs) at (write at bs m) ≡ bs
read-write at bs m =
    read_is at bs (write at bs m)
      (λ i d. write_inside at bs m i ∙ get_or_default bs i (m (at + i)) 0 d)
