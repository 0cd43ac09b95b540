-- ===== src/Elf/Segment/Claim.antt =====
-- src/elf.rs, `load_segment`: the loop claims every page of the segment, or stops at a refusal.
use bang.Common.{
  ℕ, zero, suc, ◌+◌, ◌-◌, ◌*◌, ◌/◌, ◌%◌, ◌^◌, ◌≤◌, ◌<◌, ◌≡◌, refl, inl, inr, Bool, true, false, not,
  ◌&&◌, ◌||◌, Option, some, [], ◌∷◌, ◌++◌, arith, ltb, ltb→lt, ltb→le, lt→ltb, le→ltb, &&_left,
  ||_cases, ◌⊎◌, length, Bool-cases, Option-cases,
}
use bang.Elf.Segment.{
  u64, Records, page_allocated, record_allocation, Loader, run_pages, claim_pages,
}

-- What UEFI documents of `allocate_pages` at an address: a success gives the pages asked for, which
-- were free, and takes none away.
pub record Firmware : Type 1 where
  pub S : Type 0
  pub allocate : S → ℕ → ℕ → Option S
  pub owned : S → ℕ → Bool
  pub grants :
      (s s' : S) (page n i : ℕ)
      → allocate s page n ≡ some s'
      → i < n
      → owned s' (page + i * 4096) ≡ true
  pub keeps :
      (s s' : S) (page n q : ℕ) → allocate s page n ≡ some s' → owned s q ≡ true → owned s' q ≡ true

page_allocated-append :
    (rs : Records) (base n q : ℕ)
    → page_allocated (rs ++ (base, n) ∷ []) q
      ≡ (page_allocated rs q || page_allocated ((base, n) ∷ []) q)
unfolding page_allocated
page_allocated-append [] base n q = ground arith
page_allocated-append (r ∷ rs) base n q = ground (arith, page_allocated-append rs base n q)

-- The run ends at `end` or at a claimed page, and is not empty where the first page is free.
run_pages_total :
    (fuel : ℕ) (rs : Records) (end page run k : ℕ)
    → page + k * 4096 ≡ end
    → end < 2 ^ 64
    → run ≤ k
    → k < run + fuel
    → (r : ℕ) × (run_pages fuel rs end page run ≡ some r) × (run ≤ r) × (r ≤ k)
unfolding run_pages
run_pages_total zero rs end page run k e b lo f = absurd (omega arith)
run_pages_total (suc fuel) rs end page run k e b lo f =
    let at = u64 (page + run * 4096) in
    let plain : at ≡ page + run * 4096 = omega arith in
    elim (Bool-cases (ltb at end && not (page_allocated rs at))) [
      | inl more ↦
          let below : run < k = omega (arith, ltb→lt at end (&&_left (ltb at end) _ more)) in
          let (r, found, above, within) =
            run_pages_total fuel rs end page (run + 1) k e b (omega arith) (omega arith) in
          (r, rw more found, omega arith, within)
      | inr done ↦ (run, rw done, omega arith, lo)
    ]

run_pages_pos :
    (fuel : ℕ) (rs : Records) (end page k : ℕ)
    → page + k * 4096 ≡ end
    → end < 2 ^ 64
    → 0 < k
    → k ≤ fuel
    → page_allocated rs page ≡ false
    → (r : ℕ) × (run_pages (suc fuel) rs end page 0 ≡ some r) × (1 ≤ r) × (r ≤ k)
run_pages_pos fuel rs end page k e b pos f free =
    let (r, found, lo, hi) = run_pages_total fuel rs end page 1 k e b pos (omega arith) in
    let plain : u64 (page + 0 * 4096) ≡ page = omega arith in
    (r, unfold run_pages in rw (plain, free, lt→ltb page end (omega arith)) found, lo, hi)

-- Every page that the loader has on record belongs to it.
abbrev pub IsRecorded : (fw : Firmware) → Loader fw.S → Type 0
IsRecorded fw l =
    (q : ℕ) → q % 4096 ≡ 0 → page_allocated l.records q ≡ true → fw.owned l.firmware q ≡ true

-- What the loop did: it took no page away and wrote no memory, and if it ended well, every page
-- from `page` to `end` belongs to the loader.
pub record Claimed (fw : Firmware) (page end : ℕ) (l l' : Loader fw.S) (done : Bool) : Type 0 where
  pub recorded : IsRecorded fw l'
  pub kept : (q : ℕ) → fw.owned l.firmware q ≡ true → fw.owned l'.firmware q ≡ true
  pub same_mem : l'.mem ≡ l.mem
  pub all_owned :
      done ≡ true → (i : ℕ) → page + i * 4096 < end → fw.owned l'.firmware (page + i * 4096) ≡ true

module _ (fw : Firmware) where
  open fw use {S, allocate, owned, grants, keeps}

  record_allocation-IsRecorded :
      (l : Loader S) (firmware : S) (page run : ℕ)
      → page % 4096 ≡ 0
      → page + run * 4096 < 2 ^ 64
      → allocate l.firmware page run ≡ some firmware
      → IsRecorded fw l
      → IsRecorded fw
          (record l { records = record_allocation l.records page run; firmware = firmware })
  unfolding record_allocation
  record_allocation-IsRecorded l firmware page run a b got h q aq =
      elim (Bool-cases (ltb (length l.records) 32)) [
        | inr full ↦ rw full (λ rec. keeps l.firmware firmware page run q got (h q aq rec))
        | inl room ↦ rw room (λ rec. by_record (
            ||_cases (page_allocated l.records q) (page_allocated ((page, run) ∷ []) q)
              (rw page_allocated-append at rec)))
      ]
    where
      in_run : page_allocated ((page, run) ∷ []) q ≡ true → owned firmware q ≡ true
      in_run e =
          let bounds : (page ≤ q) × (q < page + run * 4096) = bounds_of e in
          let i : ℕ = (q - page) / 4096 in
          let there : page + i * 4096 ≡ q = omega (arith, bounds) in
          rw there at (grants l.firmware firmware page run i got (omega (arith, bounds)))
        where
          bounds_of :
              page_allocated ((page, run) ∷ []) q ≡ true → (page ≤ q) × (q < page + run * 4096)
          bounds_of e = unfold page_allocated in ground arith

      by_record :
          (page_allocated l.records q ≡ true) ⊎ (page_allocated ((page, run) ∷ []) q ≡ true)
          → owned firmware q ≡ true
      by_record (inl rec) = keeps l.firmware firmware page run q got (h q aq rec)
      by_record (inr e) = in_run e

  Claimed-skip :
      {page end : ℕ} {l l' : Loader S} {done : Bool}
      → owned l.firmware page ≡ true
      → Claimed fw (page + 4096) end l l' done
      → Claimed fw page end l l' done
  Claimed-skip {page} {end} {l} {l'} {done} first c = record {
    recorded = c.recorded;
    kept = c.kept;
    same_mem = c.same_mem;
    all_owned = every;
  }
    where
      every :
          done ≡ true → (i : ℕ) → page + i * 4096 < end → owned l'.firmware (page + i * 4096) ≡ true
      every d zero p =
          let there : page + 0 * 4096 ≡ page = omega arith in rw there (c.kept page first)
      every d (suc i) p =
          let there : page + 4096 + i * 4096 ≡ page + suc i * 4096 = omega arith in
          rw there at (c.all_owned d i (omega arith))

  Claimed-fresh :
      {page end : ℕ} {l l' : Loader S} {done : Bool} (firmware : S) (rs : Records) (run : ℕ)
      → allocate l.firmware page run ≡ some firmware
      → Claimed fw (page + run * 4096) end (record l { records = rs; firmware = firmware }) l' done
      → Claimed fw page end l l' done
  Claimed-fresh {page} {end} {l} {l'} {done} firmware rs run got c = record {
    recorded = c.recorded;
    kept = λ q o. c.kept q (keeps l.firmware firmware page run q got o);
    same_mem = c.same_mem;
    all_owned = every;
  }
    where
      every :
          done ≡ true → (i : ℕ) → page + i * 4096 < end → owned l'.firmware (page + i * 4096) ≡ true
      every d i p = elim (Bool-cases (ltb i run)) [
        | inl inside ↦
            c.kept (page + i * 4096)
              (grants l.firmware firmware page run i got (ltb→lt i run inside))
        | inr behind ↦
            let q : run ≤ i = ltb→le i run behind in
            let there : page + run * 4096 + (i - run) * 4096 ≡ page + i * 4096 = omega arith in
            rw there at (c.all_owned d (i - run) (omega arith))
      ]

  pub claim_pages-Claimed :
      (fuel end page k : ℕ) (l : Loader S)
      → page + k * 4096 ≡ end
      → end < 2 ^ 64
      → page % 4096 ≡ 0
      → k < fuel
      → IsRecorded fw l
      → (done : Bool) × (l' : Loader S) × (claim_pages allocate fuel end page l ≡ some (done, l'))
        × Claimed fw page end l l' done
  unfolding claim_pages
  claim_pages-Claimed zero end page k l e b a f h = absurd (omega arith)
  claim_pages-Claimed (suc fuel) end page zero l e b a f h = (
    true,
    l,
    rw (le→ltb page end (omega arith)),
    record {
      recorded = h;
      kept = λ q o. o;
      same_mem = refl;
      all_owned = λ d i p. absurd (omega arith);
    },
  )
  claim_pages-Claimed (suc fuel) end page (suc k) l e b a f h =
      rw (lt→ltb page end (omega arith)) (elim (Bool-cases (page_allocated l.records page)) [
        | inl old ↦
            let (done, l', found, c) =
              claim_pages-Claimed fuel end (page + 4096) k l (omega arith) b (omega arith)
                (omega arith) h in
            let plain : u64 (page + 4096) ≡ page + 4096 = omega arith in
            (done, l', rw (old, plain) found, Claimed-skip (h page a old) c)
        | inr free ↦
            let (run, counted, lo, hi) =
              run_pages_pos fuel l.records end page (suc k) e b (omega arith) (omega arith) free in
            elim (Option-cases (allocate l.firmware page run)) [
              | inl refused ↦ (
                false,
                l,
                rw (free, counted, refused),
                record { recorded = h; kept = λ q o. o; same_mem = refl; all_owned = λ d. cc },
              )
              | inr (firmware, got) ↦
                  let (done, l', found, c) =
                    claim_pages-Claimed fuel end (page + run * 4096) (suc k - run)
                      (record l {
                        records = record_allocation l.records page run;
                        firmware = firmware;
                      })
                      (omega arith) b (omega arith) (omega arith)
                      (record_allocation-IsRecorded l firmware page run a (omega arith) got h) in
                  let plain : u64 (page + run * 4096) ≡ page + run * 4096 = omega arith in
                  (
                    done,
                    l',
                    rw (free, counted, got, plain) found,
                    Claimed-fresh firmware (record_allocation l.records page run) run got c,
                  )
            ]
      ])
