-- ===== src/Config/Print/SoFar.antt =====
-- src/config.rs: what the parser has between two lines, whatever it reads.
use bang.Common.{
  ℕ, ◌<◌, ◌^◌, ◌≡◌, refl, ap, ◌∙◌, inl, inr, Bool, true, false, Option, none, some, List, [], ◌∷◌,
  All, All-append, if◌then◌else◌, Option-cases,
}
use bang.Common.Text.{
  Text, codes, is_nil, text_eq, trim_start, trim_end, trim, before, first_word, after_word,
  parse_u64,
}
use bang.Common.Text.Trim.{trim-IsTrimmed, All-trim, All-after_word, All-before, before-All}
use bang.Common.Text.Lines.{IsOneLine}
use bang.Config.{
  Target, Entry, Parse, set_modules, set_initrd, set_options, replace_if, set_default, update_last,
  retarget, apply, step, steps,
}
use bang.Config.Print.{IsArg, IsPath, IsOptionalPath}
use bang.Config.Print.Bounds.{parse_u64-word, or_five-word}

if_ind : {A : Type 0} (P : A → Type 0) (b : Bool) (x y : A) → P x → P y → P (if b then x else y)
if_ind P true x y hx hy = hx
if_ind P false x y hx hy = hy

-- The argument that a line gives.
trim-IsArg : (raw : Text) → IsOneLine raw → IsArg (trim (after_word (trim (before b'#' raw))))
trim-IsArg raw h =
    let word : Text = after_word (trim (before b'#' raw)) in
    record {
      no_comment = All-trim _ word (
          All-after_word _ (trim (before b'#' raw))
            (All-trim _ (before b'#' raw) (before-All b'#' raw)));
      one_line = All-trim _ word (
          All-after_word _ (trim (before b'#' raw))
            (All-trim _ (before b'#' raw) (All-before _ b'#' raw h)));
      is_trimmed = trim-IsTrimmed word;
    }

empty-IsArg : IsArg []
unfolding trim_start trim_end
empty-IsArg = record {
  no_comment = tt;
  one_line = tt;
  is_trimmed = record { starts = refl; ends = refl };
}

module _ (path : Text → Option Text) (exact : (a p : Text) → path a ≡ some p → p ≡ a) where
  -- A target that the parser has so far: a Multiboot kernel may still be missing.
  abbrev pub IsSoFar : Target → Type 0
  IsSoFar (Target.multiboot kernel modules) =
      (is_nil kernel ≡ false → IsPath path kernel) × IsOptionalPath path modules
  IsSoFar (Target.chainload p device) = IsPath path p × (device ≡ none)
  IsSoFar (Target.linux kernel initrd cmdline) =
      IsPath path kernel × IsOptionalPath path initrd × IsArg cmdline

  pub record IsEntrySoFar (e : Entry) : Type 0 where
    pub title_arg : IsArg e.title
    pub so_far : IsSoFar e.target

  path-IsPath : (arg p : Text) → IsArg arg → path arg ≡ some p → IsPath path p
  path-IsPath arg p a taken =
      let same = exact arg p taken in
      rw same (record { is_arg = a; is_taken = taken ∙ ap some same })

  path-IsOptionalPath : (arg : Text) → IsArg arg → IsOptionalPath path (path arg)
  path-IsOptionalPath arg a = elim (Option-cases (path arg)) [
    | inl refused ↦ rw refused tt
    | inr (p, taken) ↦ rw taken (path-IsPath arg p a taken)
  ]

  replace_if-IsSoFar :
      (arg : Text) (make : Text → Target) (t : Target)
      → ((p : Text) → path arg ≡ some p → IsSoFar (make p))
      → IsSoFar t
      → IsSoFar (replace_if (path arg) make t)
  replace_if-IsSoFar arg make t made h = elim (Option-cases (path arg)) [
    | inl refused ↦ rw refused h
    | inr (p, taken) ↦ rw taken (made p taken)
  ]

  set_modules-IsSoFar :
      (o : Option Text) (t : Target) → IsOptionalPath path o → IsSoFar t → IsSoFar (set_modules o t)
  set_modules-IsSoFar o (Target.multiboot kernel modules) g h = (h.0, g)
  set_modules-IsSoFar o (Target.chainload p device) g h = h
  set_modules-IsSoFar o (Target.linux kernel initrd cmdline) g h = h

  set_initrd-IsSoFar :
      (o : Option Text) (t : Target) → IsOptionalPath path o → IsSoFar t → IsSoFar (set_initrd o t)
  set_initrd-IsSoFar o (Target.multiboot kernel modules) g h = h
  set_initrd-IsSoFar o (Target.chainload p device) g h = h
  set_initrd-IsSoFar o (Target.linux kernel initrd cmdline) g (k, i, c) = (k, g, c)

  set_options-IsSoFar :
      (arg : Text) (t : Target) → IsArg arg → IsSoFar t → IsSoFar (set_options arg t)
  set_options-IsSoFar arg (Target.multiboot kernel modules) g h = h
  set_options-IsSoFar arg (Target.chainload p device) g h = h
  set_options-IsSoFar arg (Target.linux kernel initrd cmdline) g (k, i, c) = (k, i, g)

  retarget-IsSoFar :
      (d arg : Text) (t : Target) → IsArg arg → IsSoFar t → IsSoFar (retarget path d arg t)
  unfolding retarget
  retarget-IsSoFar d arg t a h =
      let taken : (p : Text) → path arg ≡ some p → IsPath path p = λ p e. path-IsPath arg p a e in
      let optional = path-IsOptionalPath arg a in
      if_ind IsSoFar (text_eq d (codes "multiboot")) _ _
        (replace_if-IsSoFar arg _ t (λ p e. ((λ full. taken p e), tt)) h)
        (if_ind IsSoFar (text_eq d (codes "modules")) _ _
          (set_modules-IsSoFar (path arg) t optional h)
          (if_ind IsSoFar (text_eq d (codes "chainload")) _ _
            (replace_if-IsSoFar arg _ t (λ p e. (taken p e, refl)) h)
            (if_ind IsSoFar (text_eq d (codes "linux")) _ _
              (replace_if-IsSoFar arg _ t (λ p e. (taken p e, tt, empty-IsArg)) h)
              (if_ind IsSoFar (text_eq d (codes "initrd")) _ _
                (set_initrd-IsSoFar (path arg) t optional h)
                (if_ind IsSoFar (text_eq d (codes "options")) _ _ (set_options-IsSoFar arg t a h)
                  h)))))

  update_last-IsEntrySoFar :
      (f : Target → Target)
      → ((t : Target) → IsSoFar t → IsSoFar (f t))
      → (es : List Entry) → All IsEntrySoFar es
      → All IsEntrySoFar (update_last f es)
  unfolding update_last
  update_last-IsEntrySoFar f g [] h = tt
  update_last-IsEntrySoFar f g (e ∷ []) h =
      (record { title_arg = h.0.title_arg; so_far = g e.target h.0.so_far }, tt)
  update_last-IsEntrySoFar f g (e ∷ e' ∷ es) h = (h.0, update_last-IsEntrySoFar f g (e' ∷ es) h.1)

  -- What the parser has so far: numbers of 64 bits, and entries of arguments.
  pub record IsParseSoFar (p : Parse) : Type 0 where
    pub timeout_word : p.cfg.timeout < 2 ^ 64
    pub entries_so_far : All IsEntrySoFar p.cfg.entries

  set_default-IsParseSoFar :
      (arg : Text) (o : Option ℕ) (p : Parse) → IsParseSoFar p → IsParseSoFar (set_default arg o p)
  set_default-IsParseSoFar arg none p h = record {
    timeout_word = h.timeout_word;
    entries_so_far = h.entries_so_far;
  }
  set_default-IsParseSoFar arg (some n) p h = record {
    timeout_word = h.timeout_word;
    entries_so_far = h.entries_so_far;
  }

  apply-IsParseSoFar :
      (d arg : Text) (p : Parse) → IsArg arg → IsParseSoFar p → IsParseSoFar (apply path d arg p)
  unfolding apply
  apply-IsParseSoFar d arg p a h =
      if_ind IsParseSoFar (text_eq d (codes "timeout")) _ _
        (record {
          timeout_word = or_five-word (parse_u64 arg) (parse_u64-word arg);
          entries_so_far = h.entries_so_far;
        })
        (if_ind IsParseSoFar (text_eq d (codes "autodetect")) _ _
          (record { timeout_word = h.timeout_word; entries_so_far = h.entries_so_far })
          (if_ind IsParseSoFar (text_eq d (codes "default")) _ _
            (set_default-IsParseSoFar arg (parse_u64 arg) p h)
            (if_ind IsParseSoFar (text_eq d (codes "entry")) _ _
              (record {
                timeout_word = h.timeout_word;
                entries_so_far =
                    All-append IsEntrySoFar p.cfg.entries _ h.entries_so_far
                      (record { title_arg = a; so_far = ((λ full. cc), tt) }, tt);
              })
              (record {
                timeout_word = h.timeout_word;
                entries_so_far =
                    update_last-IsEntrySoFar (retarget path d arg) (λ t. retarget-IsSoFar d arg t a)
                      p.cfg.entries h.entries_so_far;
              }))))

  step-IsParseSoFar :
      (p : Parse) (raw : Text) → IsOneLine raw → IsParseSoFar p → IsParseSoFar (step path p raw)
  unfolding step
  step-IsParseSoFar p raw one h =
      let line : Text = trim (before b'#' raw) in
      if_ind IsParseSoFar (is_nil line) _ _ h
        (apply-IsParseSoFar (first_word line) (trim (after_word line)) p (trim-IsArg raw one) h)

  pub steps-IsParseSoFar :
      (p : Parse) (ls : List Text)
      → All IsOneLine ls
      → IsParseSoFar p
      → IsParseSoFar (steps path p ls)
  unfolding steps
  steps-IsParseSoFar p [] one h = h
  steps-IsParseSoFar p (l ∷ ls) one h =
      steps-IsParseSoFar (step path p l) ls one.1 (step-IsParseSoFar p l one.0 h)
