-- ===== src/Boot/Main/Choice.antt =====
-- src/main.rs: which entry `main` boots when nobody is there.
use bang.Common.{
  ℕ, ◌*◌, ◌≤◌, ◌<◌, ◌≡◌, ◌≢◌, refl, ap, subst, ◌∙◌, inl, inr, ◌||◌, Option, none, some, List, [],
  arith, length, replicate, leb, ◌==◌, get_elem?, Bool-cases,
}
use bang.Common.Text.{Text, codes}
use bang.Common.Text.Utf8.{utf8_bytes}
use bang.Boot.{with_found, loaded_or_builtin, taken}
use bang.Boot.Entries.{with_found-prefix, get_elem?-in, get_elem?-prefix}
use bang.Boot.Main.{
  World, start, start_taken, start_chosen, scanned, start_offered, start_configured, main,
}
use bang.Config.{Entry, Config, parse}
use bang.Config.Laws.{DefaultIsValid, parse-IsValid}
use bang.Config.Load.{load}
use bang.Config.Load.Laws.{AreCharacters, IsLoaded, load-IsLoaded, load-print}
use bang.Config.Print.{print, IsPrintable}
use bang.Discover.{Found}
use bang.Menu.{Console, chosen, choose}
use bang.Menu.Unattended.{choose_unattended}
use bang.Uefi.{FileReader}

-- With no key pressed for as long as the countdown takes, the default is chosen: also where there
-- is no countdown.
choose-default :
    (console : Console) (cfg : Config) (n : ℕ)
    → 10 * cfg.timeout ≤ n
    → (choose console cfg (replicate n none)).1 ≡ chosen cfg.default
unfolding choose
choose-default console cfg n time =
    elim (Bool-cases (leb (length cfg.entries) 1 || cfg.timeout == 0)) [
      | inl at_once ↦ rw at_once refl
      | inr menu ↦
          let many : 1 < length cfg.entries = ground (arith, menu) in
          let some_time : 0 < cfg.timeout = ground (arith, menu) in
          elim (choose_unattended console cfg n many some_time) [
            | inl (over, default) ↦ default
            | inr (before, waiting) ↦ absurd (omega (arith, before, time))
          ]
    ]

default_entry :
    (cfg : Config)
    → DefaultIsValid cfg
    → cfg.entries ≢ []
    → (e : Entry) × (get_elem? cfg.entries cfg.default ≡ some e)
default_entry cfg (inl inside) h = get_elem?-in cfg.entries cfg.default inside
default_entry cfg (inr (empty, first)) h = absurd (h empty)

-- The default of the configuration is still the entry at the default's index among all that are
-- offered.
with_found-default :
    (cfg : Config) (found : List Found) (e : Entry)
    → get_elem? cfg.entries cfg.default ≡ some e
    → get_elem? (with_found cfg found).entries (with_found cfg found).default ≡ some e
with_found-default cfg found e there =
    let (added, same, _) = with_found-prefix cfg found in
    let (more, all) = added in rw (same, all) (get_elem?-prefix cfg.entries more cfg.default there)

with_found-timeout :
    (cfg : Config) (found : List Found) → (with_found cfg found).timeout ≡ cfg.timeout
with_found-timeout cfg found = elim (Bool-cases cfg.autodetect) [
  | inl wanted ↦ rw wanted refl
  | inr unwanted ↦ rw unwanted refl
]

module _ {S D F : Type 0} (w : World S D F) where
  start_offered-default :
      (cfg : Config) (found : List Found) (e : Entry) (n : ℕ)
      → get_elem? cfg.entries cfg.default ≡ some e
      → w.keys ≡ replicate n none
      → 10 * cfg.timeout ≤ n
      → start_offered w cfg (some found) ≡ start w e.target
  unfolding taken
  start_offered-default cfg found e n there keys time =
      let offered : Config = with_found cfg found in
      let same_time = with_found-timeout cfg found in
      ap (λ ks. start_chosen w offered (choose w.console offered ks).1) keys
      ∙ ap (start_chosen w offered)
          (choose-default w.console offered n (omega (arith, same_time, time)))
      ∙ ap (start_taken w) (with_found-default cfg found e there)

load-DefaultIsValid :
    (reader : FileReader) (path : Text → Option Text) (opened : Option (ℕ × reader.F)) (c : Config)
    → load path reader.read_some opened ≡ some c
    → DefaultIsValid c
load-DefaultIsValid reader path opened c e =
    by_reason opened (load path reader.read_some opened) (load-IsLoaded reader path opened) e
  where
    by_reason :
        (o : Option (ℕ × reader.F)) (r : Option Config)
        → IsLoaded reader path o r
        → r ≡ some c
        → DefaultIsValid c
    by_reason _ _ (IsLoaded.loaded size f t rest s m front fits a) q =
        let same : parse path t ≡ c = cc in subst DefaultIsValid same (parse-IsValid path t).0
    by_reason _ _ IsLoaded.missing q = absurd cc
    by_reason _ _ (IsLoaded.unsuitable size f why) q = absurd cc
    by_reason _ _ (IsLoaded.unreadable size f f' why) q = absurd cc
    by_reason _ _ (IsLoaded.not_text size f front rest all fits why) q = absurd cc

main-loaded :
    {S D : Type 0} (reader : FileReader) (w : World S D reader.F) (c : Config) (e : Entry)
    (found : List Found) (n : ℕ)
    → w.read_some ≡ reader.read_some
    → load w.path reader.read_some (w.open_file (codes "\\bang.cfg")) ≡ some c
    → get_elem? c.entries c.default ≡ some e
    → scanned w c ≡ some found
    → w.keys ≡ replicate n none
    → 10 * c.timeout ≤ n
    → main w ≡ start w e.target
unfolding main
main-loaded reader w c e found n reads loads there scans keys time =
    let same = ap (λ r. load w.path r (w.open_file (codes "\\bang.cfg"))) reads ∙ loads in
    ap (λ o. start_configured w (loaded_or_builtin o)) same
    ∙ ap (start_offered w c) scans
    ∙ start_offered-default w c found e n there keys time

-- Whatever text `\bang.cfg` has, if it is loaded with an entry, the scan for other loaders ends
-- where it is wanted, and no key is pressed while ten polls for each second of the timeout go by:
-- `main` starts the target of the entry that the configuration has at its default's index, whatever
-- was found.
pub main_unattended :
    {S D : Type 0} (reader : FileReader) (w : World S D reader.F) (c : Config) (found : List Found)
    (n : ℕ)
    → w.read_some ≡ reader.read_some
    → load w.path reader.read_some (w.open_file (codes "\\bang.cfg")) ≡ some c
    → c.entries ≢ []
    → scanned w c ≡ some found
    → w.keys ≡ replicate n none
    → 10 * c.timeout ≤ n
    → (e : Entry) × (get_elem? c.entries c.default ≡ some e) × (main w ≡ start w e.target)
main_unattended reader w c found n reads loads some_entry scans keys time =
    let opened = w.open_file (codes "\\bang.cfg") in
    let (e, there) =
      default_entry c (load-DefaultIsValid reader w.path opened c loads) some_entry in
    (e, there, main-loaded reader w c e found n reads loads there scans keys time)

-- A `\bang.cfg` of at most 64 KiB with the bytes of a printed configuration, which one read gives
-- whole, decides what is booted: if the scan for other loaders ends where it is wanted, and no key is
-- pressed while ten polls for each second of the timeout go by, `main` starts the target of the
-- configuration's default entry.
pub main-print :
    {S D : Type 0} (reader : FileReader) (w : World S D reader.F) (c : Config) (e : Entry)
    (found : List Found) (size n : ℕ) (f f' : reader.F)
    → w.read_some ≡ reader.read_some
    → IsPrintable w.path c
    → AreCharacters (print c)
    → 0 < size
    → size ≤ 64 * 1024
    → w.open_file (codes "\\bang.cfg") ≡ some (size, f)
    → reader.read_some f size ≡ (some (utf8_bytes (print c)), f')
    → get_elem? c.entries c.default ≡ some e
    → scanned w c ≡ some found
    → w.keys ≡ replicate n none
    → 10 * c.timeout ≤ n
    → main w ≡ start w e.target
main-print reader w c e found size n f f' reads h chars some_size small opens got there scans keys
      time =
    main-loaded reader w c e found n reads
      (ap (load w.path reader.read_some) opens
        ∙ load-print reader w.path c size f f' h chars some_size small got)
      there scans keys time
