-- ===== src/Modules/Loading/Endless.antt =====
-- src/modules.rs: what the loop of `load_modules` does at an entry that its buffer is too small
-- for.
use bang.Common.{ℕ, zero, suc, ◌<◌, ◌≡◌, refl, ap, ◌∙◌, Option, List, ◌∷◌}
use bang.Common.Text.{Text}
use bang.Modules.Loading.{File, Loaded, out_of_fuel, opened, load_all, load_modules}
use bang.Uefi.{FileInfo, DirectoryReader}

-- At an entry that takes more than 512 bytes the loop of `load_modules` never ends: no number of
-- rounds is enough, because the firmware gives the same entry again.
pub load_modules-endless :
    (dir : DirectoryReader) {S : Type 0} (at : ℕ) (allocate_below : ℕ → S → ℕ → Option (ℕ × S))
    (file : Text → File) (fuel : ℕ) (d : dir.D) (i : FileInfo) (is : List FileInfo) (l : Loaded S)
    → dir.contents d ≡ i ∷ is
    → 512 < i.info_size
    → load_modules at allocate_below file dir.read_entry fuel (opened d) l ≡ out_of_fuel
unfolding load_modules load_all
load_modules-endless dir at allocate_below file zero d i is l c h = refl
load_modules-endless dir at allocate_below file (suc fuel) d i is l c h =
    let e = dir.keeps d 512 i is c h in
    let round : load_all at allocate_below file dir.read_entry (suc fuel) d l
        ≡ load_all at allocate_below file dir.read_entry fuel (dir.read_entry d 512).1 l =
      rw (ap (λ p. p.0) e, load_all) refl in
    round
    ∙ ap (λ p. load_all at allocate_below file dir.read_entry fuel p.1 l) e
    ∙ load_modules-endless dir at allocate_below file fuel d i is l c h
