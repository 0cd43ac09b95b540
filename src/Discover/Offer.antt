-- ===== src/Discover/Offer.antt =====
-- src/discover.rs: what `probe` offers for one directory of a volume.
use bang.Common.{
  ℕ, zero, suc, ◌<◌, ◌≡◌, refl, subst, inl, inr, true, false, Option, none, some, List, [], ◌∷◌,
  arith, get_elem?, Bool-cases,
}
use bang.Common.Text.{Text}
use bang.Discover.{Found, Volume, exists, is_own, loader_path, pretty, offer}

module _ (to_uppercase : ℕ → Text) {D : Type 0} (own : Option (ℕ × Text)) (v : Volume D)
    (vendor : Text) where
  -- A loader's path in the vendor's directory, for the loader at an index.
  abbrev HasFile : List Text → ℕ → Type 0
  HasFile ls k = (l : Text) × (get_elem? ls k ≡ some l) × (exists v (loader_path vendor l) ≡ true)

  abbrev HasNoneBefore : List Text → ℕ → Type 0
  HasNoneBefore ls k =
      (j : ℕ) (l : Text) → j < k → get_elem? ls j ≡ some l → exists v (loader_path vendor l) ≡ false

  -- What is offered for a directory: nothing if it has none of the loaders, or if the first that it
  -- has is Bang; else the first that it has.
  pub data IsOffer (ls : List Text) (o : Option Found) : Type 0 where
    no_loader :
        ((j : ℕ) (l : Text) → get_elem? ls j ≡ some l → exists v (loader_path vendor l) ≡ false)
        → o ≡ none
        → IsOffer ls o
    own_image :
        (k : ℕ) (l : Text)
        → get_elem? ls k ≡ some l
        → exists v (loader_path vendor l) ≡ true
        → HasNoneBefore ls k
        → is_own own v.device (loader_path vendor l) ≡ true
        → o ≡ none
        → IsOffer ls o
    first_loader :
        (k : ℕ) (l : Text)
        → get_elem? ls k ≡ some l
        → exists v (loader_path vendor l) ≡ true
        → HasNoneBefore ls k
        → is_own own v.device (loader_path vendor l) ≡ false
        → o
          ≡ some record {
            title = pretty to_uppercase vendor l;
            device = v.device;
            path = loader_path vendor l;
          }
        → IsOffer ls o

  none_before-zero : (ls : List Text) → HasNoneBefore ls 0
  none_before-zero ls j l lt = absurd (omega arith)

  none_before-cons :
      (l : Text) (ls : List Text) (k : ℕ)
      → exists v (loader_path vendor l) ≡ false
      → HasNoneBefore ls k
      → HasNoneBefore (l ∷ ls) (suc k)
  none_before-cons l ls k missing h zero l' lt e =
      subst (λ t. exists v (loader_path vendor t) ≡ false) (cc) missing
  none_before-cons l ls k missing h (suc j) l' lt e = h j l' (omega arith) e

  IsOffer-cons :
      (l : Text) (ls : List Text) (o : Option Found)
      → exists v (loader_path vendor l) ≡ false
      → IsOffer ls o
      → IsOffer (l ∷ ls) o
  IsOffer-cons l ls o missing (no_loader h e) = no_loader all_missing e
    where
      all_missing :
          (j : ℕ) (l' : Text)
          → get_elem? (l ∷ ls) j ≡ some l'
          → exists v (loader_path vendor l') ≡ false
      all_missing zero l' got = subst (λ t. exists v (loader_path vendor t) ≡ false) (cc) missing
      all_missing (suc j) l' got = h j l' got
  IsOffer-cons l ls o missing (own_image k l' got there before mine e) =
      own_image (suc k) l' got there (none_before-cons l ls k missing before) mine e
  IsOffer-cons l ls o missing (first_loader k l' got there before other e) =
      first_loader (suc k) l' got there (none_before-cons l ls k missing before) other e

  -- For any order of loaders, own image and volume: nothing is offered for a directory if it has
  -- none of the loaders, or if the first that it has is the image that Bang was loaded from; else
  -- the first that it has is offered, by its path on the volume.
  pub offer-IsOffer : (ls : List Text) → IsOffer ls (offer to_uppercase own v vendor ls)
  unfolding offer
  offer-IsOffer [] = no_loader (λ j l e. cc) refl
  offer-IsOffer (l ∷ ls) = elim (Bool-cases (exists v (loader_path vendor l))) [
    | inr missing ↦ rw missing (IsOffer-cons l ls _ missing (offer-IsOffer ls))
    | inl there ↦ elim (Bool-cases (is_own own v.device (loader_path vendor l))) [
      | inl mine ↦ rw (there, mine) (own_image 0 l refl there (none_before-zero (l ∷ ls)) mine refl)
      | inr other ↦
          rw (there, other) (first_loader 0 l refl there (none_before-zero (l ∷ ls)) other refl)
    ]
  ]
