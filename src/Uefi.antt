-- ===== src/Uefi.antt =====
-- What the models take of the `uefi` crate and the firmware behind it: the reading of directories,
-- and the pages that are given below a limit.
-- None of it is under src/; it is a parameter, with what UEFI documents of it.
pub mod Pages
use bang.Common.{
  ℕ, ◌+◌, ◌*◌, ◌≤◌, ◌<◌, ◌≡◌, Bool, true, false, Option, some, List, [], ◌∷◌, ◌++◌, length,
}
use bang.Common.Text.{Text}

-- `FileInfo`, and the bytes that it takes in a buffer.
pub record FileInfo : Type 0 where
  pub file_name : Text
  pub file_size : ℕ
  pub is_directory : Bool
  pub info_size : ℕ

-- What `Directory::read_entry` answers; too small a buffer may come with the size that is needed.
pub data ReadEntry : Type 0 where
  got : FileInfo → ReadEntry
  ended failed : ReadEntry
  too_small : Option ℕ → ReadEntry

-- Directories that are read with buffers of some length. UEFI documents that a read gives the next
-- entry and moves on, that it gives nothing at the end, and that a buffer that is too small leaves
-- the position where it was and is answered with the size of the entry.
pub record DirectoryReader : Type 1 where
  pub D : Type 0
  pub read_entry : D → ℕ → ReadEntry × D
  pub contents : D → List FileInfo
  pub at_end : (d : D) (n : ℕ) → contents d ≡ [] → (read_entry d n).0 ≡ ended
  pub gives :
      (d : D) (n : ℕ) (i : FileInfo) (is : List FileInfo)
      → contents d ≡ i ∷ is
      → i.info_size ≤ n
      → (d' : D) × (read_entry d n ≡ (got i, d')) × (contents d' ≡ is)
  pub keeps :
      (d : D) (n : ℕ) (i : FileInfo) (is : List FileInfo)
      → contents d ≡ i ∷ is
      → n < i.info_size
      → read_entry d n ≡ (too_small (some i.info_size), d)

-- `allocate_pages` with `AllocateType::MaxAddress(limit)`, over a state that knows which bytes are
-- in use. UEFI documents that the pages it gives end at or below the limit, were not in use, and
-- are then, and that nothing else is given back.
pub record LowMemory : Type 1 where
  pub S : Type 0
  pub allocate_below : ℕ → S → ℕ → Option (ℕ × S)
  pub owned : S → ℕ → Bool
  pub ends_below :
      (limit : ℕ) (s s' : S) (n at : ℕ)
      → allocate_below limit s n ≡ some (at, s')
      → at + n * 4096 ≤ limit + 1
  pub fresh :
      (limit : ℕ) (s s' : S) (n at a : ℕ)
      → allocate_below limit s n ≡ some (at, s')
      → at ≤ a
      → a < at + n * 4096
      → owned s a ≡ false
  pub takes :
      (limit : ℕ) (s s' : S) (n at a : ℕ)
      → allocate_below limit s n ≡ some (at, s')
      → at ≤ a
      → a < at + n * 4096
      → owned s' a ≡ true
  pub keeps_owned :
      (limit : ℕ) (s s' : S) (n at a : ℕ)
      → allocate_below limit s n ≡ some (at, s')
      → owned s a ≡ true
      → owned s' a ≡ true

-- `allocate_pages` with `AllocateType::Address`, over the same state: it gives the pages at the
-- address, or refuses.
pub record FixedMemory (low : LowMemory) : Type 0 where
  pub allocate : low.S → ℕ → ℕ → Option low.S
  pub takes_at :
      (s s' : low.S) (at n a : ℕ)
      → allocate s at n ≡ some s'
      → at ≤ a
      → a < at + n * 4096
      → low.owned s' a ≡ true
  pub keeps_at :
      (s s' : low.S) (at n a : ℕ)
      → allocate s at n ≡ some s'
      → low.owned s a ≡ true
      → low.owned s' a ≡ true

-- A file that is open, with the bytes that are left of it. UEFI documents that a read gives as many
-- of the next bytes as it likes, up to the number that is asked for, that it gives none only at the
-- end, and that it may fail.
pub record FileReader : Type 1 where
  pub F : Type 0
  pub read_some : F → ℕ → Option (List ℕ) × F
  pub left : F → List ℕ
  pub gives_next :
      (f f' : F) (n : ℕ) (bs : List ℕ)
      → read_some f n ≡ (some bs, f')
      → (left f ≡ bs ++ left f') × (length bs ≤ n)
  pub gives_some : (f f' : F) (n : ℕ) → 0 < n → read_some f n ≡ (some [], f') → left f ≡ []
