-- ===== src/Elf/Segment.antt =====
-- src/elf.rs: the pages claimed for segments, and `load_segment`. The firmware's `allocate_pages`
-- at an address is the parameter `allocate`, over a state of its own.
pub mod Claim
pub mod Laws
use bang.Common.{
  ℕ, zero, suc, ◌+◌, ◌-◌, ◌*◌, ◌/◌, ◌%◌, ◌^◌, Bool, true, false, not, ◌&&◌, ◌||◌, Option, none,
  some, ◌>>=◌, List, [], ◌∷◌, ◌++◌, Memory, write, fill, ltb, leb, ◌==◌, if◌then◌else◌, length,
  take, drop,
}

-- Arithmetic of `u64` in a release build.
abbrev pub u64 : ℕ → ℕ
u64 n = n % 2 ^ 64

-- `ALLOC_PAGES` up to `ALLOC_COUNT`: bases with their numbers of pages.
abbrev pub Records : Type 0
Records = List (ℕ × ℕ)

unfoldable pub page_allocated : Records → ℕ → Bool
page_allocated [] page = false
page_allocated ((base, pages) ∷ rs) page =
    not (pages == 0) && (leb base page && ltb page (u64 (base + pages * 4096)))
    || page_allocated rs page

unfoldable pub record_allocation : Records → ℕ → ℕ → Records
record_allocation rs base num_pages =
    if ltb (length rs) 32 then rs ++ (base, num_pages) ∷ [] else rs

-- The loader's statics, the firmware, and the memory.
pub record Loader (S : Type 0) : Type 0 where
  pub records : Records
  pub firmware : S
  pub mem : Memory

-- `page & !0xFFF`
abbrev pub page_base : ℕ → ℕ
page_base paddr = paddr - paddr % 4096

-- Pages from `page` on that are below `end` and unclaimed, on fuel.
unfoldable pub run_pages : ℕ → Records → ℕ → ℕ → ℕ → Option ℕ
run_pages zero rs end page run = none
run_pages (suc fuel) rs end page run =
    let next = run_pages fuel rs end page (run + 1) in
    let at = u64 (page + run * 4096) in
    if ltb at end && not (page_allocated rs at) then next else some run

-- The copy of the file's bytes and the zeros behind them.
unfoldable pub place : ℕ → ℕ → List ℕ → ℕ → ℕ → Memory → Memory
place paddr memsz file_buf offset filesz m =
    let copied = write paddr (take filesz (drop offset file_buf)) m in
    if ltb filesz memsz then fill (paddr + filesz) 0 (memsz - filesz) copied else copied

abbrev pub num_pages : ℕ → ℕ → ℕ
num_pages paddr memsz = u64 (u64 (paddr - page_base paddr + memsz) + 4095) / 4096

abbrev pub segment_end : ℕ → ℕ → ℕ
segment_end paddr memsz = u64 (page_base paddr + num_pages paddr memsz * 4096)

-- The three checks on a program header: `filesz > memsz`, and the two `checked_add`s.
unfoldable pub is_malformed : ℕ → ℕ → List ℕ → ℕ → ℕ → Bool
is_malformed paddr memsz file_buf offset filesz =
    ltb memsz filesz
    || (leb (2 ^ 64) (offset + filesz) || ltb (length file_buf) (offset + filesz))
    || leb (2 ^ 64) (paddr + memsz)

module _ {S : Type 0} (allocate : S → ℕ → ℕ → Option S) where
  -- The loop over the pages of a segment; `some false` is a refusal of the firmware, `none` the end
  -- of the fuel.
  unfoldable pub claim_pages : ℕ → ℕ → ℕ → Loader S → Option (Bool × Loader S)
  claim_pages zero end page l = none
  claim_pages (suc fuel) end page l =
      let skip = claim_pages fuel end (u64 (page + 4096)) l in
      let fresh = (do
        run ← run_pages (suc fuel) l.records end page 0
        elim (allocate l.firmware page run) [
          | none ↦ some (false, l)
          | some firmware ↦
              claim_pages fuel end (u64 (page + run * 4096))
                (record l { records = record_allocation l.records page run; firmware = firmware })
        ]) in
      let body = if page_allocated l.records page then skip else fresh in
      if ltb page end then body else some (true, l)

  unfoldable pub load_segment : ℕ → ℕ → List ℕ → ℕ → ℕ → Loader S → Option (Bool × Loader S)
  load_segment paddr memsz file_buf offset filesz l =
      let claimed = (do
        (done, l') ←
            claim_pages (suc (num_pages paddr memsz)) (segment_end paddr memsz) (page_base paddr) l
        some (
            if done
            then (true, record l' { mem = place paddr memsz file_buf offset filesz l'.mem })
            else (false, l'))) in
      if is_malformed paddr memsz file_buf offset filesz then some (false, l) else claimed
