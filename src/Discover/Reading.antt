-- ===== src/Discover/Reading.antt =====
-- src/discover.rs: the scan against a reference that goes through the contents of the directories.
use bang.Common.{
  ℕ, zero, suc, ◌*◌, ◌<◌, ◌≡◌, refl, sym, ap, ◌∙◌, inl, inr, not, Option, none, some, List, [], ◌∷◌,
  ◌++◌, append_assoc, append-nil, arith, leb, leb→le, leb→lt, if◌then◌else◌, length, All,
  Bool-cases,
}
use bang.Common.Text.{Text, codes}
use bang.Discover.{
  Found, windows, loaders, Opened, regular, absent, directory, Volume, exists, is_skipped, offer,
  pushed, take_entry, read_all, probe, scan_all, scan, or_empty,
}
use bang.Uefi.{FileInfo, got, ended, too_small, DirectoryReader}

module _ (to_uppercase : ℕ → Text) (r : DirectoryReader) (own : Option (ℕ × Text)) where
  open r use {D, read_entry, contents, at_end, gives, keeps}

  -- The loader that an entry of \EFI is offered for.
  abbrev pub offered : Volume D → FileInfo → Option Found
  offered v i =
      if not i.is_directory
      then none
      else if is_skipped i.file_name
      then none
      else offer to_uppercase own v i.file_name loaders

  abbrev pub vendors : Volume D → List FileInfo → List Found
  vendors v [] = []
  vendors v (i ∷ is) = pushed (offered v i) [] ++ vendors v is

  abbrev pub entries_of : Opened D → List FileInfo
  entries_of regular = []
  entries_of absent = []
  entries_of (directory efi) = contents efi

  abbrev pub windows_on : Volume D → List Found
  windows_on v =
      if exists v windows
      then record { title = codes "Windows Boot Manager"; device = v.device; path = windows } ∷ []
      else []

  -- What a volume has: Windows, then a loader for each entry of \EFI that has one.
  abbrev pub on_volume : Volume D → List Found
  on_volume v = windows_on v ++ vendors v (entries_of (v.open_path (codes "\\EFI")))

  abbrev pub on_volumes : List (Option (Volume D)) → List Found
  on_volumes [] = []
  on_volumes (none ∷ vs) = on_volumes vs
  on_volumes (some v ∷ vs) = on_volume v ++ on_volumes vs

  -- Twice as many rounds as entries, and one.
  abbrev pub HasFuel : ℕ → Option (Volume D) → Type 0
  HasFuel fuel none = Unit
  HasFuel fuel (some v) = 2 * length (entries_of (v.open_path (codes "\\EFI"))) < fuel

  pushed-append : (o : Option Found) (out : List Found) → pushed o out ≡ out ++ pushed o []
  pushed-append none out = sym (append-nil out)
  pushed-append (some f) out = refl

  take_entry-offered :
      (v : Volume D) (i : FileInfo) (out : List Found)
      → take_entry to_uppercase own v i out ≡ out ++ pushed (offered v i) []
  unfolding take_entry
  take_entry-offered v i out = elim (Bool-cases i.is_directory) [
    | inr file ↦ rw file (sym (append-nil out))
    | inl dir ↦ elim (Bool-cases (is_skipped i.file_name)) [
      | inl skipped ↦ rw (dir, skipped) (sym (append-nil out))
      | inr looked ↦
          rw (dir, looked) (pushed-append (offer to_uppercase own v i.file_name loaders) out)
    ]
  ]

  module _ (v : Volume D) where
    read_all-ended :
        (fuel n : ℕ) (d : D) (out : List Found)
        → (read_entry d n).0 ≡ ended
        → read_all to_uppercase own v read_entry (suc fuel) n d out ≡ some out
    unfolding read_all
    read_all-ended fuel n d out e = rw (e, read_all) refl

    read_all-got :
        (fuel n : ℕ) (d d' : D) (i : FileInfo) (out : List Found)
        → read_entry d n ≡ (got i, d')
        → read_all to_uppercase own v read_entry (suc fuel) n d out
          ≡ read_all to_uppercase own v read_entry fuel n d' (out ++ pushed (offered v i) [])
    unfolding read_all
    read_all-got fuel n d d' i out e =
        let out' = out ++ pushed (offered v i) [] in
        let step : read_all to_uppercase own v read_entry (suc fuel) n d out
            ≡ read_all to_uppercase own v read_entry fuel n (read_entry d n).1 out' =
          rw (ap (λ p. p.0) e, read_all, take_entry-offered v i out) refl in
        step ∙ ap (λ p. read_all to_uppercase own v read_entry fuel n p.1 out') e

    read_all-grown :
        (fuel n needed : ℕ) (d : D) (out : List Found)
        → read_entry d n ≡ (too_small (some needed), d)
        → read_all to_uppercase own v read_entry (suc fuel) n d out
          ≡ read_all to_uppercase own v read_entry fuel needed d out
    unfolding read_all
    read_all-grown fuel n needed d out e =
        let step : read_all to_uppercase own v read_entry (suc fuel) n d out
            ≡ read_all to_uppercase own v read_entry fuel needed (read_entry d n).1 out =
          rw (ap (λ p. p.0) e, read_all) refl in
        step ∙ ap (λ p. read_all to_uppercase own v read_entry fuel needed p.1 out) e

    read_all-vendors :
        (fuel n : ℕ) (d : D) (is : List FileInfo) (out : List Found)
        → contents d ≡ is
        → 2 * length is < fuel
        → read_all to_uppercase own v read_entry fuel n d out ≡ some (out ++ vendors v is)
    read_all-vendors zero n d is out e f = absurd (omega arith)
    read_all-vendors (suc fuel) n d [] out e f =
        read_all-ended fuel n d out (at_end d n e) ∙ ap some (sym (append-nil out))
    read_all-vendors (suc zero) n d (i ∷ is) out e f = absurd (omega arith)
    read_all-vendors (suc (suc fuel)) n d (i ∷ is) out e f = elim (Bool-cases (leb i.info_size n)) [
      | inl fits ↦
          let (d', answer, rest) = gives d n i is e (leb→le _ _ fits) in
          read_all-got (suc fuel) n d d' i out answer
          ∙ read_all-vendors (suc fuel) n d' is (out ++ pushed (offered v i) []) rest (omega arith)
          ∙ ap some (append_assoc out (pushed (offered v i) []) (vendors v is))
      | inr small ↦
          let (d', answer, rest) = gives d i.info_size i is e (omega arith) in
          read_all-grown (suc fuel) n i.info_size d out (keeps d n i is e (leb→lt _ _ small))
          ∙ read_all-got fuel i.info_size d d' i out answer
          ∙ read_all-vendors fuel i.info_size d' is (out ++ pushed (offered v i) []) rest
              (omega arith)
          ∙ ap some (append_assoc out (pushed (offered v i) []) (vendors v is))
    ]

    read_opened :
        (fuel : ℕ) (out : List Found) (o : Opened D)
        → 2 * length (entries_of o) < fuel
        → (elim o as (λ _. Option (List Found)) [
          | regular ↦ some out
          | absent ↦ some out
          | directory efi ↦ read_all to_uppercase own v read_entry fuel 512 efi out
        ])
          ≡ some (out ++ vendors v (entries_of o))
    read_opened fuel out regular f = ap some (sym (append-nil out))
    read_opened fuel out absent f = ap some (sym (append-nil out))
    read_opened fuel out (directory efi) f = read_all-vendors fuel 512 efi (contents efi) out refl f

    with_windows : List Found → List Found
    with_windows out =
        if exists v windows
        then out
          ++ record { title = codes "Windows Boot Manager"; device = v.device; path = windows } ∷ []
        else out

    with_windows-windows_on : (out : List Found) → with_windows out ≡ out ++ windows_on v
    unfolding with_windows
    with_windows-windows_on out = elim (Bool-cases (exists v windows)) [
      | inl there ↦ rw there refl
      | inr missing ↦ rw missing (sym (append-nil out))
    ]

    probe-on_volume :
        (fuel : ℕ) (out : List Found)
        → HasFuel fuel (some v)
        → probe to_uppercase own v read_entry fuel out ≡ some (out ++ on_volume v)
    unfolding probe with_windows
    probe-on_volume fuel out f =
        let o = v.open_path (codes "\\EFI") in
        read_opened fuel (with_windows out) o f
        ∙ ap (λ out'. some (out' ++ vendors v (entries_of o))) (with_windows-windows_on out)
        ∙ ap some (append_assoc out (windows_on v) (vendors v (entries_of o)))

  scan_all-on_volumes :
      (fuel : ℕ) (vs : List (Option (Volume D))) (out : List Found)
      → All (HasFuel fuel) vs
      → scan_all to_uppercase read_entry own fuel vs out ≡ some (out ++ on_volumes vs)
  unfolding scan_all
  scan_all-on_volumes fuel [] out f = ap some (sym (append-nil out))
  scan_all-on_volumes fuel (none ∷ vs) out f = scan_all-on_volumes fuel vs out f.1
  scan_all-on_volumes fuel (some v ∷ vs) out f = rw (probe-on_volume v fuel out f.0) (
      scan_all-on_volumes fuel vs (out ++ on_volume v) f.1
      ∙ ap some (append_assoc out (on_volume v) (on_volumes vs)))

  -- On any volumes, and in directories with entries of any size: with two rounds for each entry of
  -- a directory and one more, the scan ends, and what it finds is what the reference has, volume by
  -- volume and entry by entry, no entry lost to a buffer that was too small.
  pub scan-on_volumes :
      (fuel : ℕ) (handles : Option (List (Option (Volume D))))
      → All (HasFuel fuel) (or_empty handles)
      → scan to_uppercase read_entry own fuel handles ≡ some (on_volumes (or_empty handles))
  unfolding scan
  scan-on_volumes fuel none f = scan_all-on_volumes fuel [] [] f
  scan-on_volumes fuel (some vs) f = scan_all-on_volumes fuel vs [] f
