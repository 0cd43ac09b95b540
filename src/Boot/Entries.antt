-- ===== src/Boot/Entries.antt =====
-- src/main.rs: the discovered loaders beside the configured entries, and the entry taken.
use bang.Common.{
  subst, ℕ, zero, suc, ◌<◌, ◌≡◌, ◌≢◌, refl, sym, ap, ◌∙◌, inl, inr, true, false, ◌||◌, Option, none,
  some, List, [], ◌∷◌, ◌++◌, append_assoc, append-nil, arith, length, length-append, All, get_elem?,
  Bool-cases,
}
use bang.Common.Text.{Text, text_eq_iff}
use bang.Config.{Entry, Config, parse}
use bang.Config.Laws.{DefaultIsValid, parse-IsValid}
use bang.Discover.{Found}
use bang.Menu.{Console, Key, chosen, choose}
use bang.Menu.Choice.{InRange, choose-InRange}
use bang.Boot.{names, already, entry_of, add_found, with_found, offered, taken}

names-entry_of : (f : Found) → names f (entry_of f).target ≡ true
unfolding names
names-entry_of f = ground (arith, text_eq_iff f.path f.path)

already-append :
    (f : Found) (es fs : List Entry) → already f (es ++ fs) ≡ (already f es || already f fs)
unfolding already
already-append f [] fs = refl
already-append f (e ∷ es) fs = ground (arith, already-append f es fs)

add_found-prefix :
    (fs : List Found) (es : List Entry) → (more : List Entry) × (add_found fs es ≡ es ++ more)
unfolding add_found
add_found-prefix [] es = ([], sym (append-nil es))
add_found-prefix (f ∷ fs) es = elim (Bool-cases (already f es)) [
  | inl old ↦ rw old (add_found-prefix fs es)
  | inr fresh ↦
      let (more, e) = add_found-prefix fs (es ++ entry_of f ∷ []) in
      rw fresh (entry_of f ∷ more, e ∙ append_assoc es (entry_of f ∷ []) more)
]

add_found-already :
    (fs : List Found) (es : List Entry) (g : Found)
    → already g es ≡ true
    → already g (add_found fs es) ≡ true
add_found-already fs es g h =
    let (more, e) = add_found-prefix fs es in rw (e, already-append g es more, h)

add_found-old :
    (f : Found) (fs : List Found) (es : List Entry)
    → already f es ≡ true
    → add_found (f ∷ fs) es ≡ add_found fs es
unfolding add_found
add_found-old f fs es old = rw old

add_found-fresh :
    (f : Found) (fs : List Found) (es : List Entry)
    → already f es ≡ false
    → add_found (f ∷ fs) es ≡ add_found fs (es ++ entry_of f ∷ [])
unfolding add_found
add_found-fresh f fs es fresh = rw fresh

abbrev pub IsOffered : List Entry → Found → Type 0
IsOffered es f = already f es ≡ true

All-IsOffered :
    {es es' : List Entry} (f : Found) (fs : List Found)
    → es' ≡ es
    → already f es ≡ true
    → All (IsOffered es) fs
    → All (IsOffered es') (f ∷ fs)
All-IsOffered f fs same here rest =
    (rw same here, subst (λ es''. All (IsOffered es'') fs) (sym same) rest)

-- Whatever the entries were before, every loader that was found is offered: by an entry that was
-- there, or by one that is added.
pub add_found-All : (fs : List Found) (es : List Entry) → All (IsOffered (add_found fs es)) fs
unfolding already
add_found-All [] es = tt
add_found-All (f ∷ fs) es = elim (Bool-cases (already f es)) [
  | inl old ↦
      All-IsOffered f fs (add_found-old f fs es old) (add_found-already fs es f old)
        (add_found-All fs es)
  | inr fresh ↦
      let es' = es ++ entry_of f ∷ [] in
      let added : already f es' ≡ true =
        rw (already-append f es (entry_of f ∷ []), fresh, names-entry_of f) in
      All-IsOffered f fs (add_found-fresh f fs es fresh) (add_found-already fs es' f added)
        (add_found-All fs es')
]

pub get_elem?-in :
    (es : List Entry) (i : ℕ) → i < length es → (e : Entry) × (get_elem? es i ≡ some e)
get_elem?-in [] i h = absurd (omega arith)
get_elem?-in (e ∷ es) zero h = (e, refl)
get_elem?-in (e ∷ es) (suc i) h = get_elem?-in es i (omega arith)

pub get_elem?-prefix :
    (es more : List Entry) (i : ℕ) {e : Entry}
    → get_elem? es i ≡ some e
    → get_elem? (es ++ more) i ≡ some e
get_elem?-prefix [] more i h = cc
get_elem?-prefix (x ∷ es) more zero h = h
get_elem?-prefix (x ∷ es) more (suc i) h = get_elem?-prefix es more i h

-- Offering what was found keeps the configured entries, at the same indices, and the default;
-- without autodetect it changes nothing.
pub with_found-prefix :
    (cfg : Config) (found : List Found)
    → ((more : List Entry) × ((with_found cfg found).entries ≡ cfg.entries ++ more))
      × ((with_found cfg found).default ≡ cfg.default)
      × (cfg.autodetect ≡ false → with_found cfg found ≡ cfg)
with_found-prefix cfg found = elim (Bool-cases cfg.autodetect) [
  | inl wanted ↦ rw wanted (add_found-prefix found cfg.entries, refl, λ no. cc)
  | inr unwanted ↦ rw unwanted (([], sym (append-nil cfg.entries)), refl, λ no. refl)
]

positive : (es : List Entry) → es ≢ [] → 0 < length es
positive [] h = absurd (h refl)
positive (e ∷ es) h = omega arith

with_found-default_lt :
    (cfg : Config) (found : List Found)
    → DefaultIsValid cfg
    → (with_found cfg found).entries ≢ []
    → (with_found cfg found).default < length (with_found cfg found).entries
with_found-default_lt cfg found valid some_entry =
    let (added, same, _) = with_found-prefix cfg found in
    let (more, e) = added in
    elim valid [
      | inl lt ↦
          let longer : cfg.default < length (cfg.entries ++ more) =
            omega (arith, lt, length-append cfg.entries more) in
          rw same (subst (λ es. cfg.default < length es) (sym e) longer)
      | inr (no_entry, first) ↦
          let zero_default : (with_found cfg found).default ≡ 0 = same ∙ first in
          rw zero_default (positive (with_found cfg found).entries some_entry)
    ]

-- With a configuration read from any text, and whatever was found, however the console and the keys
-- are: if there is an entry at all, the index that the menu returns is that of an entry, so that
-- `main` does not panic as it takes it.
pub taken-choose :
    (path : Text → Option Text) (text : Text) (found : List Found) (console : Console)
    (keys : List (Option Key)) (i : ℕ)
    → (offered (some (parse path text)) found).entries ≢ []
    → (choose console (offered (some (parse path text)) found) keys).1 ≡ chosen i
    → (e : Entry) × (taken (offered (some (parse path text)) found) i ≡ some e)
unfolding offered taken
taken-choose path text found console keys i some_entry ended =
    let cfg = offered (some (parse path text)) found in
    let lt = with_found-default_lt (parse path text) found (parse-IsValid path text).0 some_entry in
    get_elem?-in cfg.entries i
      (subst (InRange cfg.entries) ended (choose-InRange console cfg keys lt))

empty_prefix : (es more : List Entry) → es ++ more ≡ [] → es ≡ []
empty_prefix [] more e = refl
empty_prefix (x ∷ es) more e = cc

-- With a configuration read from any text: if there is no entry, configured or found, the menu
-- returns index 0 at once, without drawing anything or asking for a key, and taking the entry
-- panics.
pub taken-empty :
    (path : Text → Option Text) (text : Text) (found : List Found) (console : Console)
    (keys : List (Option Key))
    → (offered (some (parse path text)) found).entries ≡ []
    → (choose console (offered (some (parse path text)) found) keys ≡ ([], chosen 0))
      × (taken (offered (some (parse path text)) found) 0 ≡ none)
unfolding choose taken offered
taken-empty path text found console keys h =
    let cfg = parse path text in
    let ((more, e), same, _) = with_found-prefix cfg found in
    let none_configured : cfg.entries ≡ [] = empty_prefix cfg.entries more (sym e ∙ h) in
    let first : (with_found cfg found).default ≡ 0 = same ∙ elim (parse-IsValid path text).0 [
      | inl lt ↦ absurd (omega (arith, lt, ap length none_configured))
      | inr (no_entry, zero_default) ↦ zero_default
    ] in
    (rw (h, first) refl, rw h refl)
