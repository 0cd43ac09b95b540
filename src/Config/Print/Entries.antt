-- ===== src/Config/Print/Entries.antt =====
-- The printed lines of an entry, read by the parser of src/config.rs.
use bang.Common.{
  ◌≡◌, refl, ap, ◌∙◌, Bool, false, ◌||◌, Option, none, some, List, [], ◌∷◌, ◌++◌, arith,
}
use bang.Common.Text.{Text, codes, text_eq}
use bang.Config.{Target, Entry, Parse, update_last, retarget, apply}

abbrev pub with_entries : Parse → List Entry → Parse
with_entries p es = record p { cfg = record p.cfg { entries = es } }

-- The parser's variables with one more entry, the last.
abbrev pub add_entry : Text → Target → Parse → Parse
add_entry title t p = with_entries p (p.cfg.entries ++ record { title = title; target = t } ∷ [])

update_last-append :
    (f : Target → Target) (es : List Entry) (title : Text) (t : Target)
    → update_last f (es ++ record { title = title; target = t } ∷ [])
      ≡ es ++ record { title = title; target = f t } ∷ []
unfolding update_last
update_last-append f [] title t = refl
update_last-append f (e ∷ []) title t = refl
update_last-append f (e ∷ e' ∷ es) title t = ap (◌∷◌ e) (update_last-append f (e' ∷ es) title t)

-- The directives of the configuration as a whole, and the one that opens an entry.
abbrev pub is_outer : Text → Bool
is_outer d =
    text_eq d (codes "timeout")
    || (text_eq d (codes "autodetect")
        || (text_eq d (codes "default") || text_eq d (codes "entry")))

module _ (path : Text → Option Text) where
  apply-inner :
      (d arg : Text) (p : Parse)
      → is_outer d ≡ false
      → apply path d arg p ≡ with_entries p (update_last (retarget path d arg) p.cfg.entries)
  unfolding apply
  apply-inner d arg p h =
      let timeout : text_eq d (codes "timeout") ≡ false = ground arith in
      let autodetect : text_eq d (codes "autodetect") ≡ false = ground arith in
      let default : text_eq d (codes "default") ≡ false = ground arith in
      let entry : text_eq d (codes "entry") ≡ false = ground arith in
      rw (timeout, autodetect, default, entry) refl

  -- A directive of an entry changes the target of the last one.
  pub apply-last :
      (d arg title : Text) (t u : Target) (p : Parse)
      → is_outer d ≡ false
      → retarget path d arg t ≡ u
      → apply path d arg (add_entry title t p) ≡ add_entry title u p
  apply-last d arg title t u p h e =
      apply-inner d arg (add_entry title t p) h
      ∙ ap (with_entries p) (
          update_last-append (retarget path d arg) p.cfg.entries title t
          ∙ ap (λ v. p.cfg.entries ++ record { title = title; target = v } ∷ []) e)

  pub retarget-multiboot :
      (arg q : Text) (t : Target)
      → path arg ≡ some q
      → retarget path (codes "multiboot") arg t ≡ Target.multiboot q none
  unfolding retarget
  retarget-multiboot arg q t e = rw e refl

  pub retarget-modules :
      (arg q kernel : Text) (m : Option Text)
      → path arg ≡ some q
      → retarget path (codes "modules") arg (Target.multiboot kernel m)
        ≡ Target.multiboot kernel (some q)
  unfolding retarget
  retarget-modules arg q kernel m e = rw e refl

  pub retarget-chainload :
      (arg q : Text) (t : Target)
      → path arg ≡ some q
      → retarget path (codes "chainload") arg t ≡ Target.chainload q none
  unfolding retarget
  retarget-chainload arg q t e = rw e refl

  pub retarget-linux :
      (arg q : Text) (t : Target)
      → path arg ≡ some q
      → retarget path (codes "linux") arg t ≡ Target.linux q none []
  unfolding retarget
  retarget-linux arg q t e = rw e refl

  pub retarget-initrd :
      (arg q kernel cmdline : Text) (i : Option Text)
      → path arg ≡ some q
      → retarget path (codes "initrd") arg (Target.linux kernel i cmdline)
        ≡ Target.linux kernel (some q) cmdline
  unfolding retarget
  retarget-initrd arg q kernel cmdline i e = rw e refl

  pub retarget-options :
      (arg kernel cmdline : Text) (i : Option Text)
      → retarget path (codes "options") arg (Target.linux kernel i cmdline)
        ≡ Target.linux kernel i arg
  unfolding retarget
  retarget-options arg kernel cmdline i = refl
