-- ===== src/Linux/Handed/Ramdisks.antt =====
-- src/linux.rs: the initrd's part of `boot`.
use bang.Common.{
  ℕ, ◌+◌, ◌*◌, ◌≤◌, ◌<◌, ◌≡◌, refl, subst, ◌∙◌, ◌⊎◌, max, Option, none, some, List, arith, Memory,
  write, write_away, write_inside, length, length-le_bytes, le_bytes, get_or, get_or_default,
}
use bang.Common.Text.{Text}
use bang.Linux.{div_ceil, put_initrd, alloc_low}
use bang.Linux.Boot.{done, with_initrd, placed, initrd_read, load_initrd}
use bang.Linux.Handed.{enough_pages, some_page, done-inj, Ramdisk, sizes, HasRamdisk}
use bang.Linux.Reading.{Read, whole, unread, out_of_fuel}
use bang.Linux.Regions.{Region, Beside, apart, Region-given, Region-beside, Region-write}
use bang.Uefi.Pages.{outside_swap}
use bang.Uefi.{LowMemory, FixedMemory}

module _ (low : LowMemory) (fixed : FixedMemory low) (file : Text → Read) (params : ℕ)
    (bp : ℕ → ℕ) where
  open low use {S, allocate_below, owned, takes, keeps_owned, ends_below}

  -- The initrd has been dealt with: the page says where it is, and what was there is still.
  pub record HasTaken (path : Option Text) (m : Memory) (fw : S) (r : Memory × S) : Type 0 where
    pub initrd : Option (ℕ × List ℕ)
    pub is_ramdisk : Ramdisk low fixed file path r.1 initrd
    pub page : Region low r.1 params 4096 (put_initrd (sizes low fixed file initrd) bp) r.0
    pub ramdisk : HasRamdisk low fixed file params r.1 r.0 initrd
    pub keeps :
        (at n : ℕ) (c : ℕ → ℕ)
        → Region low fw at n c m
        → Beside params at n
        → Region low r.1 at n c r.0

  left_out :
      (path : Option Text) (m : Memory) (fw : S)
      → Region low fw params 4096 bp m
      → Ramdisk low fixed file path fw none
      → HasTaken path m fw (m, fw)
  left_out path m fw page why = record {
    initrd = none;
    is_ramdisk = why;
    page = page;
    ramdisk = tt;
    keeps = λ at n c r b. r;
  }

  module _ (path : Option Text) (p : Text) (bytes : List ℕ) (m : Memory) (fw fw' : S) (mem : ℕ)
      (wanted : path ≡ some p) (read : file p ≡ whole bytes) (page : Region low fw params 4096 bp m)
      (given : allocate_below 0x1_0000_0000 fw (max (div_ceil (length bytes)) 1)
        ≡ some (mem, fw')) where
    abbrev pages : ℕ
    pages = max (div_ceil (length bytes)) 1

    abbrev m1 : Memory
    m1 = write mem bytes m

    abbrev m2 : Memory
    m2 = write (params + 0x218) (le_bytes 4 mem) m1

    outside_bytes : (a : ℕ) → (a < mem) ⊎ (mem + pages * 4096 ≤ a) → m1 a ≡ m a
    outside_bytes a out = write_away mem bytes m a (omega (arith, out, enough_pages (length bytes)))

    beside : Beside params mem (length bytes)
    beside =
        let after = apart low fw params 4096 bp m page 0x1_0000_0000 pages mem fw' given in
        let out = outside_swap params 4096 mem (pages * 4096) after in
        λ a lo hi. out a lo (omega (arith, enough_pages (length bytes)))

    -- The two fields are stored in the page, and leave all else.
    stored_beside :
        (at n : ℕ) (c : ℕ → ℕ)
        → Region low fw' at n c m1
        → Beside params at n
        → Region low fw' at n c (with_initrd params mem bytes m)
    stored_beside at n c r b =
        Region-beside low fw' at n c m2
          (Region-beside low fw' at n c m1 r params 0x218 (le_bytes 4 mem) b
            (omega (arith, length-le_bytes 4 mem)))
          params 0x21c (le_bytes 4 (length bytes)) b
          (omega (arith, length-le_bytes 4 (length bytes)))

    own_bytes : Region low fw' mem (length bytes) (λ o. get_or bytes o 0) m1
    own_bytes = record {
      ours = λ a lo hi.
          takes 0x1_0000_0000 fw fw' pages mem a given lo
            (omega (arith, enough_pages (length bytes)));
      holds = λ o d. write_inside mem bytes m o ∙ get_or_default bytes o (m (mem + o)) 0 d;
    }

    put_in : HasTaken path m fw (with_initrd params mem bytes m, fw')
    unfolding alloc_low
    put_in = record {
      initrd = some (mem, bytes);
      is_ramdisk = Ramdisk.loaded p bytes mem fw wanted read given;
      page =
          let there =
            Region-given low fw params 4096 bp m page 0x1_0000_0000 pages mem fw' given m1
              outside_bytes in
          let first = Region-write low fw' params 4096 bp m1 there 0x218 (le_bytes 4 mem) in
          Region-write low fw' params 4096 (write 0x218 (le_bytes 4 mem) bp) m2 first 0x21c
            (le_bytes 4 (length bytes));
      ramdisk = (
        stored_beside mem (length bytes) (λ o. get_or bytes o 0) own_bytes beside,
        beside,
        omega (arith, ends_below 0x1_0000_0000 fw fw' pages mem given, some_page (length bytes)),
      );
      keeps = λ at n c r b.
          stored_beside at n c
            (Region-given low fw at n c m r 0x1_0000_0000 pages mem fw' given m1 outside_bytes) b;
    }

  placed-HasTaken :
      (path : Option Text) (p : Text) (bytes : List ℕ) (m : Memory) (fw : S) (o : Option (ℕ × S))
      (r : Memory × S)
      → path ≡ some p
      → file p ≡ whole bytes
      → Region low fw params 4096 bp m
      → alloc_low fixed.allocate allocate_below fw (length bytes) ≡ o
      → placed fixed.allocate allocate_below params bytes m fw o ≡ r
      → HasTaken path m fw r
  unfolding alloc_low
  placed-HasTaken path p bytes m fw none r wanted read page e same =
      subst (HasTaken path m fw) same
        (left_out path m fw page (Ramdisk.no_memory p bytes wanted read e))
  placed-HasTaken path p bytes m fw (some (mem, fw')) r wanted read page e same =
      subst (HasTaken path m fw) same (put_in path p bytes m fw fw' mem wanted read page e)

  read-HasTaken :
      (path : Option Text) (p : Text) (m : Memory) (fw : S) (answer : Read) (r : Memory × S)
      → path ≡ some p
      → file p ≡ answer
      → Region low fw params 4096 bp m
      → initrd_read fixed.allocate allocate_below params answer m fw ≡ done r
      → HasTaken path m fw r
  read-HasTaken path p m fw (whole bytes) r wanted read page e =
      placed-HasTaken path p bytes m fw (alloc_low fixed.allocate allocate_below fw (length bytes))
        r wanted read page refl (done-inj e)
  read-HasTaken path p m fw unread r wanted read page e =
      subst (HasTaken path m fw) (done-inj e)
        (left_out path m fw page (Ramdisk.not_read p wanted read))
  read-HasTaken path p m fw out_of_fuel r wanted read page e = cc

  pub load_initrd-HasTaken :
      (path : Option Text) (m : Memory) (fw : S) (r : Memory × S)
      → Region low fw params 4096 bp m
      → load_initrd fixed.allocate allocate_below file params path m fw ≡ done r
      → HasTaken path m fw r
  unfolding load_initrd
  load_initrd-HasTaken none m fw r page e =
      subst (HasTaken none m fw) (done-inj e) (left_out none m fw page (Ramdisk.not_wanted refl))
  load_initrd-HasTaken (some p) m fw r page e =
      read-HasTaken (some p) p m fw (file p) r refl refl page e
