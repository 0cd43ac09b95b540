-- ===== src/Config/Print/Reading.antt =====
-- The printed entries, read by the parser of src/config.rs one after the other.
use bang.Common.{
  ◌≡◌, refl, sym, ap, ◌∙◌, true, false, Option, none, some, List, [], ◌∷◌, ◌++◌, append_assoc,
  append-nil, All,
}
use bang.Common.Text.{Text, codes, is_nil, text_eq, is_whitespace}
use bang.Config.{Target, Entry, Parse, retarget, apply, step, steps}
use bang.Config.Print.{
  directive_line, target_lines, lines_of_entry, lines_of_entries, IsArg, IsPrintableTarget,
  IsPrintableEntry,
}
use bang.Config.Print.Step.{is_word, step-directive_line, steps-append}
use bang.Config.Print.Entries.{
  with_entries, add_entry, is_outer, apply-last, retarget-multiboot, retarget-modules,
  retarget-chainload, retarget-linux, retarget-initrd, retarget-options,
}

-- A word that is a directive of an entry.
abbrev IsInner : Text → Type 0
IsInner d = (is_word d ≡ true) × (is_nil d ≡ false) × (is_outer d ≡ false)

module _ (path : Text → Option Text) where
  pub steps-cons :
      (p : Parse) (l : Text) (ls : List Text) {q r : Parse}
      → step path p l ≡ q
      → steps path q ls ≡ r
      → steps path p (l ∷ ls) ≡ r
  unfolding steps
  steps-cons p l ls e f = ap (λ q. steps path q ls) e ∙ f

  pub steps-nil : (p : Parse) → steps path p [] ≡ p
  unfolding steps
  steps-nil p = refl

  step-last :
      (d arg title : Text) (t u : Target) (p : Parse)
      → IsInner d
      → IsArg arg
      → retarget path d arg t ≡ u
      → step path (add_entry title t p) (directive_line d arg) ≡ add_entry title u p
  step-last d arg title t u p h a e =
      step-directive_line path (add_entry title t p) d arg h.0 h.1 a
      ∙ apply-last path d arg title t u p h.2 e

  step-entry :
      (p : Parse) (title : Text)
      → IsArg title
      → step path p (directive_line (codes "entry") title)
        ≡ add_entry title (Target.multiboot [] none) p
  unfolding is_whitespace apply
  step-entry p title a = step-directive_line path p (codes "entry") title refl refl a

  -- The lines of a target fill the entry that was opened last.
  steps-target_lines :
      (title : Text) (t u : Target) (p : Parse)
      → IsPrintableTarget path u
      → steps path (add_entry title t p) (target_lines u) ≡ add_entry title u p
  unfolding is_whitespace text_eq
  steps-target_lines title t (Target.multiboot kernel none) p (k, filled, m) =
      steps-cons _ _ _
        (step-last (codes "multiboot") kernel title t (Target.multiboot kernel none) p
          (refl, refl, refl) k.is_arg (retarget-multiboot path kernel kernel t k.is_taken))
        (steps-nil _)
  steps-target_lines title t (Target.multiboot kernel (some modules)) p (k, filled, m) =
      steps-cons _ _ _
        (step-last (codes "multiboot") kernel title t (Target.multiboot kernel none) p
          (refl, refl, refl) k.is_arg (retarget-multiboot path kernel kernel t k.is_taken))
        (steps-cons _ _ _
          (step-last (codes "modules") modules title (Target.multiboot kernel none)
            (Target.multiboot kernel (some modules)) p (refl, refl, refl) m.is_arg
            (retarget-modules path modules modules kernel none m.is_taken))
          (steps-nil _))
  steps-target_lines title t (Target.chainload q device) p (k, nowhere) =
      steps-cons _ _ _
        (step-last (codes "chainload") q title t (Target.chainload q none) p (refl, refl, refl)
          k.is_arg (retarget-chainload path q q t k.is_taken))
        (steps-nil _)
      ∙ ap (λ d. add_entry title (Target.chainload q d) p) (sym nowhere)
  steps-target_lines title t (Target.linux kernel none cmdline) p (k, i, o) =
      steps-cons _ _ _
        (step-last (codes "linux") kernel title t (Target.linux kernel none []) p (refl, refl, refl)
          k.is_arg (retarget-linux path kernel kernel t k.is_taken))
        (steps-cons _ _ _
          (step-last (codes "options") cmdline title (Target.linux kernel none [])
            (Target.linux kernel none cmdline) p (refl, refl, refl) o
            (retarget-options path cmdline kernel [] none))
          (steps-nil _))
  steps-target_lines title t (Target.linux kernel (some initrd) cmdline) p (k, i, o) =
      steps-cons _ _ _
        (step-last (codes "linux") kernel title t (Target.linux kernel none []) p (refl, refl, refl)
          k.is_arg (retarget-linux path kernel kernel t k.is_taken))
        (steps-cons _ _ _
          (step-last (codes "initrd") initrd title (Target.linux kernel none [])
            (Target.linux kernel (some initrd) []) p (refl, refl, refl) i.is_arg
            (retarget-initrd path initrd initrd kernel [] none i.is_taken))
          (steps-cons _ _ _
            (step-last (codes "options") cmdline title (Target.linux kernel (some initrd) [])
              (Target.linux kernel (some initrd) cmdline) p (refl, refl, refl) o
              (retarget-options path cmdline kernel [] (some initrd)))
            (steps-nil _)))

  steps-lines_of_entry :
      (p : Parse) (e : Entry)
      → IsPrintableEntry path e
      → steps path p (lines_of_entry e) ≡ with_entries p (p.cfg.entries ++ e ∷ [])
  steps-lines_of_entry p e h =
      steps-cons _ _ _ (step-entry p e.title h.has_title)
        (steps-target_lines e.title (Target.multiboot [] none) e.target p h.has_target)

  pub steps-lines_of_entries :
      (p : Parse) (es : List Entry)
      → All (IsPrintableEntry path) es
      → steps path p (lines_of_entries es) ≡ with_entries p (p.cfg.entries ++ es)
  steps-lines_of_entries p [] h = steps-nil p ∙ ap (with_entries p) (sym (append-nil p.cfg.entries))
  steps-lines_of_entries p (e ∷ es) h =
      steps-append path p (lines_of_entry e) (lines_of_entries es)
      ∙ ap (λ q. steps path q (lines_of_entries es)) (steps-lines_of_entry p e h.0)
      ∙ steps-lines_of_entries (with_entries p (p.cfg.entries ++ e ∷ [])) es h.1
      ∙ ap (with_entries p) (append_assoc p.cfg.entries (e ∷ []) es)
