-- ===== src/Tests/Directory.antt =====
-- A directory that is the list of its entries.
use bang.Common.{
  ℕ, ◌≤◌, ◌<◌, ◌≡◌, refl, true, false, some, List, [], ◌∷◌, arith, leb, if◌then◌else◌,
}
use bang.Uefi.{FileInfo, ReadEntry, got, ended, too_small, DirectoryReader}

abbrev pub read_list : List FileInfo → ℕ → ReadEntry × List FileInfo
read_list [] n = (ended, [])
read_list (i ∷ is) n =
    if leb i.info_size n then (got i, is) else (too_small (some i.info_size), i ∷ is)

pub read_list-ended : (d : List FileInfo) (n : ℕ) → d ≡ [] → (read_list d n).0 ≡ ended
read_list-ended [] n e = refl
read_list-ended (i ∷ is) n e = cc

pub read_list-got :
    (d : List FileInfo) (n : ℕ) (i : FileInfo) (is : List FileInfo)
    → d ≡ i ∷ is
    → i.info_size ≤ n
    → (d' : List FileInfo) × (read_list d n ≡ (got i, d')) × (d' ≡ is)
read_list-got d n i is e h =
    let yes : leb i.info_size n ≡ true = ground (arith, h) in (is, rw e (rw yes refl), refl)

pub read_list-too_small :
    (d : List FileInfo) (n : ℕ) (i : FileInfo) (is : List FileInfo)
    → d ≡ i ∷ is
    → n < i.info_size
    → read_list d n ≡ (too_small (some i.info_size), d)
read_list-too_small d n i is e h =
    let no : leb i.info_size n ≡ false = ground (arith, h) in rw e (rw no refl)

abbrev pub listed : DirectoryReader
listed = record {
  D = List FileInfo;
  read_entry = read_list;
  contents = λ d. d;
  at_end = read_list-ended;
  gives = read_list-got;
  keeps = read_list-too_small;
}
