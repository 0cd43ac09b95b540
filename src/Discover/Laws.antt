-- ===== src/Discover/Laws.antt =====
-- src/discover.rs: which loaders are offered, and when Bang offers itself.
use bang.Common.{
  ℕ, ◌≡◌, ◌≢◌, ◌-◌, ◌==◌, leb, length, length-append, drop, drop-append, refl, ap, ◌∙◌, ◌⊎◌, inl,
  inr, true, false, Option, none, some, List, [], ◌∷◌, ◌++◌, append_assoc, arith, All, All-append,
  Bool-cases,
}
use bang.Common.Text.{Text, codes, text_eq_iff}
use bang.Discover.{
  Found, windows, loaders, Volume, exists, to_ascii_uppercase, ends_with, same_file, is_own,
  loader_path, is_skipped, pushed, scan, or_empty,
}
use bang.Discover.Offer.{IsOffer, no_loader, own_image, first_loader, offer-IsOffer}
use bang.Discover.Reading.{
  offered, vendors, entries_of, windows_on, on_volume, on_volumes, HasFuel, scan-on_volumes,
}
use bang.Uefi.{FileInfo, DirectoryReader}

-- If Bang knows what it was loaded from, a path on a device is another file: it is on another device,
-- or Bang's own path, both without regard to ASCII case, does not end in it.
abbrev pub IsAnother : Option (ℕ × Text) → ℕ → Text → Type 0
IsAnother none device path = Unit
IsAnother (some (d, own_path)) device path =
    (d ≢ device) ⊎ ((front : Text) → to_ascii_uppercase own_path ≢ front ++ to_ascii_uppercase path)

ends_with-append : (front t : Text) → ends_with (front ++ t) t ≡ true
unfolding ends_with
ends_with-append front t =
    let long : leb (length t) (length (front ++ t)) ≡ true =
      ground (arith, length-append front t) in
    let start : length (front ++ t) - length t ≡ length front =
      omega (arith, length-append front t) in
    let behind : drop (length (front ++ t) - length t) (front ++ t) ≡ t =
      ap (λ n. drop n (front ++ t)) start ∙ drop-append front t in
    rw (long, behind) ((text_eq_iff t t).1 refl)

same_file-other :
    (own_path path : Text)
    → same_file own_path path ≡ false
    → (front : Text) → to_ascii_uppercase own_path ≢ front ++ to_ascii_uppercase path
unfolding same_file
same_file-other own_path path h front e =
    let ends : ends_with (to_ascii_uppercase own_path) (to_ascii_uppercase path) ≡ true =
      ap (λ s. ends_with s (to_ascii_uppercase path)) e
      ∙ ends_with-append front (to_ascii_uppercase path) in
    cc

is_own-IsAnother :
    (own : Option (ℕ × Text)) (device : ℕ) (path : Text)
    → is_own own device path ≡ false
    → IsAnother own device path
unfolding is_own
is_own-IsAnother none device path h = tt
is_own-IsAnother (some (d, own_path)) device path h = elim (Bool-cases (d == device)) [
  | inl same ↦ inr (same_file-other own_path path (rw same at h))
  | inr other ↦ inl (ground (arith, other))
]

module _ (to_uppercase : ℕ → Text) (r : DirectoryReader) (own : Option (ℕ × Text)) where
  open r use {D, read_entry}

  -- A file on the volume, under the volume's handle; only Windows' path is not compared with
  -- Bang's.
  pub record IsInstalled (v : Volume D) (f : Found) : Type 0 where
    pub device : f.device ≡ v.device
    pub there : exists v f.path ≡ true
    pub not_own : (f.path ≡ windows) ⊎ IsAnother own f.device f.path

  abbrev pub IsOnOne : List (Option (Volume D)) → Found → Type 0
  IsOnOne [] f = ⊥
  IsOnOne (none ∷ vs) f = IsOnOne vs f
  IsOnOne (some v ∷ vs) f = IsInstalled v f ⊎ IsOnOne vs f

  All-implies :
      {P Q : Found → Type 0} (h : (f : Found) → P f → Q f) (fs : List Found) → All P fs → All Q fs
  All-implies h [] a = tt
  All-implies h (f ∷ fs) a = (h f a.0, All-implies h fs a.1)

  windows_on-IsInstalled : (v : Volume D) → All (IsInstalled v) (windows_on to_uppercase r own v)
  windows_on-IsInstalled v = elim (Bool-cases (exists v windows)) [
    | inl there ↦ rw there (record { device = refl; there = there; not_own = inl refl }, tt)
    | inr missing ↦ rw missing tt
  ]

  pushed-IsInstalled :
      (v : Volume D) (vendor : Text) (o : Option Found)
      → IsOffer to_uppercase own v vendor loaders o
      → All (IsInstalled v) (pushed o [])
  pushed-IsInstalled v vendor o (no_loader h e) = rw e tt
  pushed-IsInstalled v vendor o (own_image k l got there before mine e) = rw e tt
  pushed-IsInstalled v vendor o (first_loader k l got there before other e) = rw e (
    record {
      device = refl;
      there = there;
      not_own = inr (is_own-IsAnother own v.device (loader_path vendor l) other);
    },
    tt,
  )

  offered-IsInstalled :
      (v : Volume D) (i : FileInfo)
      → All (IsInstalled v) (pushed (offered to_uppercase r own v i) [])
  offered-IsInstalled v i = elim (Bool-cases i.is_directory) [
    | inr file ↦ rw file tt
    | inl dir ↦ elim (Bool-cases (is_skipped i.file_name)) [
      | inl skipped ↦ rw (dir, skipped) tt
      | inr looked ↦
          rw (dir, looked)
            (pushed-IsInstalled v i.file_name _
              (offer-IsOffer to_uppercase own v i.file_name loaders))
    ]
  ]

  vendors-IsInstalled :
      (v : Volume D) (is : List FileInfo) → All (IsInstalled v) (vendors to_uppercase r own v is)
  vendors-IsInstalled v [] = tt
  vendors-IsInstalled v (i ∷ is) =
      All-append (IsInstalled v) (pushed (offered to_uppercase r own v i) [])
        (vendors to_uppercase r own v is) (offered-IsInstalled v i) (vendors-IsInstalled v is)

  on_volumes-IsOnOne :
      (vs : List (Option (Volume D))) → All (IsOnOne vs) (on_volumes to_uppercase r own vs)
  on_volumes-IsOnOne [] = tt
  on_volumes-IsOnOne (none ∷ vs) = on_volumes-IsOnOne vs
  on_volumes-IsOnOne (some v ∷ vs) =
      let here =
        All-append (IsInstalled v) (windows_on to_uppercase r own v)
          (vendors to_uppercase r own v
            (entries_of to_uppercase r own (v.open_path (codes "\\EFI"))))
          (windows_on-IsInstalled v)
          (vendors-IsInstalled v (entries_of to_uppercase r own (v.open_path (codes "\\EFI")))) in
      All-append (IsOnOne (some v ∷ vs)) (on_volume to_uppercase r own v)
        (on_volumes to_uppercase r own vs)
        (All-implies (λ f p. inl p) (on_volume to_uppercase r own v) here)
        (All-implies (λ f p. inr p) (on_volumes to_uppercase r own vs) (on_volumes-IsOnOne vs))

  -- With fuel for every directory the scan returns, and each loader that it found is a regular file
  -- on one of the volumes that opened, under that volume's handle; and where Bang knows what it was loaded from, each
  -- that does not stand at Windows' path is another file: it is on another device, or the path that
  -- Bang was loaded from does not end in its path, without regard to ASCII case.
  pub scan-IsOnOne :
      (fuel : ℕ) (handles : Option (List (Option (Volume D))))
      → All (HasFuel to_uppercase r own fuel) (or_empty handles)
      → (out : List Found) × (scan to_uppercase read_entry own fuel handles ≡ some out)
        × All (IsOnOne (or_empty handles)) out
  scan-IsOnOne fuel handles f = (
    on_volumes to_uppercase r own (or_empty handles),
    scan-on_volumes to_uppercase r own fuel handles f,
    on_volumes-IsOnOne (or_empty handles),
  )

  -- Bang installed at Windows' path, on the first volume, is found and offered by itself first.
  pub scan_self :
      (fuel : ℕ) (v : Volume D) (vs : List (Option (Volume D)))
      → All (HasFuel to_uppercase r own fuel) (some v ∷ vs)
      → exists v windows ≡ true
      → is_own own v.device windows ≡ true
      → (f : Found) × (out : List Found) × (scan to_uppercase read_entry own fuel
            (some (some v ∷ vs))
          ≡ some (f ∷ out))
        × (is_own own f.device f.path ≡ true)
  scan_self fuel v vs f there mine =
      let w : Found = record {
        title = codes "Windows Boot Manager";
        device = v.device;
        path = windows;
      } in
      let first : windows_on to_uppercase r own v ≡ w ∷ [] = rw there refl in
      let found =
        vendors to_uppercase r own v
          (entries_of to_uppercase r own (v.open_path (codes "\\EFI"))) in
      let rest = found ++ on_volumes to_uppercase r own vs in
      (
        w,
        rest,
        scan-on_volumes to_uppercase r own fuel (some (some v ∷ vs)) f
            ∙ ap some (
                append_assoc (windows_on to_uppercase r own v) found
                  (on_volumes to_uppercase r own vs)
                ∙ ap (λ ws. ws ++ rest) first),
        mine,
      )
