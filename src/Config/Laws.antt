-- ===== src/Config/Laws.antt =====
-- src/config.rs: what holds of every parsed configuration.
use bang.Common.{
  ℕ, zero, suc, ◌+◌, ◌<◌, ◌≡◌, ◌≢◌, refl, ap, ◌⊎◌, inl, inr, Bool, true, false, ◌||◌, Option, none,
  some, List, [], ◌∷◌, ◌++◌, arith, leb, if◌then◌else◌, length, All, Bool-cases, get_elem?,
}
use bang.Common.Text.{
  Text, codes, is_nil, text_eq, text_eq_iff, trim, lines, first_word, after_word, before,
}
use bang.Config.{
  Target, Entry, Config, Parse, update_last, retarget, apply, step, steps, is_filled, retain_filled,
  position, finish, parse, initial,
}

-- The default is the index of an entry, or 0 where there is no entry.
abbrev pub DefaultIsValid : Config → Type 0
DefaultIsValid c = (c.default < length c.entries) ⊎ ((c.entries ≡ []) × (c.default ≡ 0))

abbrev pub IsBootable : Entry → Type 0
IsBootable e = is_filled e.target ≡ true

retain_filled-IsBootable : (es : List Entry) → All IsBootable (retain_filled es)
unfolding retain_filled
retain_filled-IsBootable [] = tt
retain_filled-IsBootable (e ∷ es) = elim (Bool-cases (is_filled e.target)) [
  | inl filled ↦ rw filled (filled, retain_filled-IsBootable es)
  | inr empty ↦ rw empty (retain_filled-IsBootable es)
]

clamp_valid :
    (d : ℕ) (es : List Entry)
    → ((if leb (length es) d then 0 else d) < length es)
      ⊎ ((es ≡ []) × ((if leb (length es) d then 0 else d) ≡ 0))
clamp_valid d [] = inr (refl, ground arith)
clamp_valid d (e ∷ es) = inl (ground arith)

-- Whatever the text and whichever paths the firmware accepts: the default is the index of an entry,
-- or 0 if there is none; and no entry is left whose kernel was never filled in.
pub parse-IsValid :
    (path : Text → Option Text) (text : Text)
    → DefaultIsValid (parse path text) × All IsBootable (parse path text).entries
unfolding parse finish
parse-IsValid path text =
    let entries = (steps path initial (lines text)).cfg.entries in
    (clamp_valid _ (retain_filled entries), retain_filled-IsBootable entries)

before-append : (sep : ℕ) (s junk : Text) → before sep (s ++ sep ∷ junk) ≡ before sep s
unfolding before
before-append sep [] junk = ground arith
before-append sep (c ∷ s) junk = ground (arith, before-append sep s junk)

-- A `#` hides what follows it on the line, wherever it stands.
pub step_comment :
    (path : Text → Option Text) (p : Parse) (line junk : Text)
    → step path p (line ++ b'#' ∷ junk) ≡ step path p line
unfolding step
step_comment path p line junk = rw (before-append b'#' line junk)

-- The directives that the parser knows.
abbrev pub is_known : Text → Bool
is_known d =
    text_eq d (codes "timeout")
    || (text_eq d (codes "autodetect")
        || (text_eq d (codes "default")
            || (text_eq d (codes "entry")
                || (text_eq d (codes "multiboot")
                    || (text_eq d (codes "modules")
                        || (text_eq d (codes "chainload")
                            || (text_eq d (codes "linux")
                                || (text_eq d (codes "initrd")
                                    || text_eq d (codes "options")))))))))

update_last_same :
    (f : Target → Target) → ((t : Target) → f t ≡ t) → (es : List Entry) → update_last f es ≡ es
unfolding update_last
update_last_same f h [] = refl
update_last_same f h (e ∷ []) = ap (λ t. record e { target = t } ∷ []) (h e.target)
update_last_same f h (e ∷ e' ∷ es) = ap (◌∷◌ e) (update_last_same f h (e' ∷ es))

unknown_parts :
    (d : Text)
    → is_known d ≡ false
    → (text_eq d (codes "timeout") ≡ false)
      × (text_eq d (codes "autodetect") ≡ false)
      × (text_eq d (codes "default") ≡ false)
      × (text_eq d (codes "entry") ≡ false)
      × (text_eq d (codes "multiboot") ≡ false)
      × (text_eq d (codes "modules") ≡ false)
      × (text_eq d (codes "chainload") ≡ false)
      × (text_eq d (codes "linux") ≡ false)
      × (text_eq d (codes "initrd") ≡ false)
      × (text_eq d (codes "options") ≡ false)
unknown_parts d h = ground arith

retarget_unknown :
    (path : Text → Option Text) (d arg : Text) (t : Target)
    → is_known d ≡ false
    → retarget path d arg t ≡ t
unfolding retarget
retarget_unknown path d arg t h = let u = unknown_parts d h in rw (u.4, u.5, u.6, u.7, u.8, u.9)

apply_unknown :
    (path : Text → Option Text) (d arg : Text) (p : Parse)
    → is_known d ≡ false
    → apply path d arg p ≡ p
unfolding apply
apply_unknown path d arg p h =
    let u = unknown_parts d h in
    let same =
      update_last_same (retarget path d arg) (λ t. retarget_unknown path d arg t h) p.cfg.entries in
    rw (u.0, u.1, u.2, u.3) (ap (λ es. record p { cfg = record p.cfg { entries = es } }) same)

-- A line with a directive that is not known changes nothing: it is skipped, not refused.
pub step_unknown :
    (path : Text → Option Text) (p : Parse) (raw : Text)
    → is_known (first_word (trim (before b'#' raw))) ≡ false
    → step path p raw ≡ p
unfolding step
step_unknown path p raw h =
    let line = trim (before b'#' raw) in
    elim (Bool-cases (is_nil line)) [
      | inl empty ↦ rw empty
      | inr full ↦ rw full (apply_unknown path (first_word line) (trim (after_word line)) p h)
    ]

-- The position of a title is that of the first entry with it; there is none only if no entry has
-- it.
data IsFirst (title : Text) (es : List Entry) : Option ℕ → Type 0 where
  at :
      (i : ℕ) (e : Entry)
      → get_elem? es i ≡ some e
      → e.title ≡ title
      → ((j : ℕ) (f : Entry) → j < i → get_elem? es j ≡ some f → f.title ≢ title)
      → IsFirst title es (some i)
  nowhere :
      ((j : ℕ) (f : Entry) → get_elem? es j ≡ some f → f.title ≢ title) → IsFirst title es none

get_elem?-lt : (es : List Entry) (i : ℕ) {e : Entry} → get_elem? es i ≡ some e → i < length es
get_elem?-lt [] i h = cc
get_elem?-lt (x ∷ es) zero h = omega arith
get_elem?-lt (x ∷ es) (suc i) h = omega (arith, get_elem?-lt es i h)

IsFirst-cons :
    (title : Text) (e : Entry) (es : List Entry) {r : Option ℕ}
    → e.title ≢ title
    → IsFirst title es r
    → IsFirst title (e ∷ es) (elim r [ none ↦ none | some i ↦ some (i + 1) ])
IsFirst-cons title e es differs (nowhere h) = nowhere none_of
  where
    none_of : (j : ℕ) (g : Entry) → get_elem? (e ∷ es) j ≡ some g → g.title ≢ title
    none_of zero g got same = differs cc
    none_of (suc j) g got same = h j g got same
IsFirst-cons title e es differs (at i f got same h) =
    let one_more : i + 1 ≡ suc i = omega arith in rw one_more (at (suc i) f got same earlier)
  where
    earlier : (j : ℕ) (g : Entry) → j < suc i → get_elem? (e ∷ es) j ≡ some g → g.title ≢ title
    earlier zero g lt got' same' = differs cc
    earlier (suc j) g lt got' same' = h j g (omega arith) got' same'

position-IsFirst : (title : Text) (es : List Entry) → IsFirst title es (position title es)
unfolding position
position-IsFirst title [] = nowhere (λ j f e. cc)
position-IsFirst title (e ∷ es) = elim (Bool-cases (text_eq e.title title)) [
  | inl here ↦
      rw here (at 0 e refl ((text_eq_iff e.title title).0 here) (λ j f lt. absurd (omega arith)))
  | inr other ↦ rw other (
      IsFirst-cons title e es (λ same. cc ((text_eq_iff e.title title).1 same, other))
        (position-IsFirst title es))
]

-- The default of a configuration whose text named the title `title`, where `number` was the last
-- position given: the first entry with the title, or the position where no entry has it.
pub data HasTitledDefault (title : Text) (number : ℕ) (c : Config) : Type 0 where
  named :
      (e : Entry)
      → get_elem? c.entries c.default ≡ some e
      → e.title ≡ title
      → ((j : ℕ) (f : Entry) → j < c.default → get_elem? c.entries j ≡ some f → f.title ≢ title)
      → HasTitledDefault title number c
  unnamed :
      ((j : ℕ) (f : Entry) → get_elem? c.entries j ≡ some f → f.title ≢ title)
      → c.default ≡ (if leb (length c.entries) number then 0 else number)
      → HasTitledDefault title number c

-- A title given to `default` selects the first kept entry that has it, wherever the entry was
-- declared; where no kept entry has it, the position given before, or the first entry, stands.
pub finish-HasTitledDefault :
    (p : Parse) (title : Text)
    → p.default_title ≡ some title
    → HasTitledDefault title p.cfg.default (finish p)
unfolding finish
finish-HasTitledDefault p title named_it =
    rw named_it (by_position (position title es) (position-IsFirst title es))
  where
    es : List Entry
    es = retain_filled p.cfg.entries

    by_position :
        (r : Option ℕ)
        → IsFirst title es r
        → HasTitledDefault title p.cfg.default (record p.cfg {
          default =
              let d : ℕ = elim r [ none ↦ p.cfg.default | some i ↦ i ] in
              if leb (length es) d then 0 else d;
          entries = es;
        })
    by_position none (nowhere h) = unnamed h refl
    by_position (some i) (at _ f got same earlier) =
        let inside : leb (length es) i ≡ false = ground (arith, get_elem?-lt es i got) in
        rw inside (named f got same earlier)
