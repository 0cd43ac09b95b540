-- ===== src/Modules/Loading/Rounds.antt =====
-- src/modules.rs: the loop of `load_modules`, with a firmware as UEFI documents it.
use bang.Common.{
  ℕ, zero, suc, ◌≤◌, ◌<◌, ◌≡◌, ◌≢◌, refl, sym, ap, subst, ◌∙◌, inl, inr, List, [], ◌∷◌, ◌++◌,
  append_assoc, append-nil, arith, length, All,
}
use bang.Common.Text.{Text}
use bang.Modules.{ModuleInfo}
use bang.Modules.Loading.{
  File, read_fails, Loaded, Loading, ◌>>=◌, load_entry, load_all, load_modules, opened,
}
use bang.Modules.Loading.Intact.{HasNames, IsLater, IsLater-refl, IsModule-later}
use bang.Modules.Loading.Entry.{AreLoaded, nil, skip, load, HasLoaded, load_entry-HasLoaded}
use bang.Uefi.{FileInfo, got, DirectoryReader, LowMemory}

module _ (low : LowMemory) (at : ℕ) (file : Text → File) where
  open low use {S, allocate_below, owned}

  AreLoaded-later :
      (l l' : Loaded S) {s s' : S} {is : List FileInfo} {ms : List ModuleInfo}
      → HasNames low at l
      → IsLater low at l l'
      → AreLoaded low at file l s is ms s'
      → AreLoaded low at file l' s is ms s'
  AreLoaded-later l l' n later nil = nil
  AreLoaded-later l l' n later (skip i s s' why rest) =
      skip i s s' why (AreLoaded-later l l' n later rest)
  AreLoaded-later l l' n later (load i bytes mi s s' f o g e m rest) =
      load i bytes mi s s' f o g e (IsModule-later low at i bytes l l' mi n later m)
        (AreLoaded-later l l' n later rest)

  AreLoaded-append :
      (l : Loaded S) {s s' s'' : S} {js : List FileInfo} {ns : List ModuleInfo} {is : List FileInfo}
      {ms : List ModuleInfo}
      → AreLoaded low at file l s is ms s'
      → AreLoaded low at file l s' js ns s''
      → AreLoaded low at file l s (is ++ js) (ms ++ ns) s''
  AreLoaded-append l nil b = b
  AreLoaded-append l (skip i s s' why rest) b = skip i s s' why (AreLoaded-append l rest b)
  AreLoaded-append l (load i bytes mi s s' f o g e m rest) b =
      load i bytes mi s s' f o g e m (AreLoaded-append l rest b)

  IsLater-trans :
      (l l' l'' : Loaded S) → IsLater low at l l' → IsLater low at l' l'' → IsLater low at l l''
  IsLater-trans l l' l'' a b = record {
    keeps = λ x o. b.keeps x (a.keeps x o);
    grows = omega (arith, a.grows, b.grows);
    same = λ x o p.
        b.same x (a.keeps x o)
          (elim p [ inl before ↦ inl (omega (arith, a.grows)) | inr behind ↦ inr behind ])
        ∙ a.same x o p;
  }

  then_HasLoaded :
      (i : FileInfo) (is : List FileInfo) (l : Loaded S) (r : Loading (Loaded S))
      (next : Loaded S → Loading (Loaded S))
      → HasNames low at l
      → HasLoaded low at file (i ∷ []) l r
      → ((l' : Loaded S) → HasNames low at l' → HasLoaded low at file is l' (next l'))
      → HasLoaded low at file (i ∷ is) l (r >>= next)
  then_HasLoaded i is l r next n a h =
      let b = h a.last a.buffer in
      record {
        last = b.last;
        result = rw a.result b.result;
        buffer = b.buffer;
        later = IsLater-trans l a.last b.last a.later b.later;
        added = a.added ++ b.added;
        modules =
            b.modules ∙ ap (λ ms. ms ++ b.added) a.modules ∙ append_assoc l.modules a.added b.added;
        are_loaded =
            AreLoaded-append b.last (AreLoaded-later a.last b.last a.buffer b.later a.are_loaded)
              b.are_loaded;
      }

  module _ (dir : DirectoryReader) where
    open dir use {D, read_entry, contents, at_end, gives}

    -- An entry that fits the buffer of 512 bytes, of a file that can be read if it opens.
    abbrev pub IsReadable : FileInfo → Type 0
    IsReadable i = (i.info_size ≤ 512) × (file i.file_name ≢ read_fails)

    load_all-got :
        (fuel : ℕ) (d d' : D) (i : FileInfo) (l : Loaded S)
        → read_entry d 512 ≡ (got i, d')
        → load_all at allocate_below file read_entry (suc fuel) d l
          ≡ load_entry at allocate_below file i l
            >>= load_all at allocate_below file read_entry fuel d'
    unfolding load_all
    load_all-got fuel d d' i l e =
        let step : load_all at allocate_below file read_entry (suc fuel) d l
            ≡ load_entry at allocate_below file i l
              >>= load_all at allocate_below file read_entry fuel (read_entry d 512).1 =
          rw (ap (λ p. p.0) e, load_all) refl in
        step
        ∙ ap
            (λ p.
              load_entry at allocate_below file i l
              >>= load_all at allocate_below file read_entry fuel p.1)
            e

    pub load_all-HasLoaded :
        (is : List FileInfo) (fuel : ℕ) (d : D) (l : Loaded S)
        → contents d ≡ is
        → All IsReadable is
        → length is < fuel
        → HasNames low at l
        → HasLoaded low at file is l (load_all at allocate_below file read_entry fuel d l)
    unfolding load_all
    load_all-HasLoaded is zero d l c h f n = absurd (omega arith)
    load_all-HasLoaded [] (suc fuel) d l c h f n =
        rw (at_end d 512 c, load_all)
          (record {
            last = l;
            result = refl;
            buffer = n;
            later = IsLater-refl low at l;
            added = [];
            modules = sym (append-nil l.modules);
            are_loaded = nil;
          })
    load_all-HasLoaded (i ∷ is) (suc fuel) d l c h f n =
        let (d', e, c') = gives d 512 i is c h.0.0 in
        subst (λ r. HasLoaded low at file (i ∷ is) l r) (sym (load_all-got fuel d d' i l e))
          (then_HasLoaded i is l (load_entry at allocate_below file i l)
            (load_all at allocate_below file read_entry fuel d') n
            (load_entry-HasLoaded low at file i l n h.0.1)
            (λ l' n'. load_all-HasLoaded is fuel d' l' c' h.1 (omega arith) n'))

    pub load_modules-HasLoaded :
        (fuel : ℕ) (d : D) (l : Loaded S)
        → All IsReadable (contents d)
        → length (contents d) < fuel
        → HasNames low at l
        → HasLoaded low at file
            (contents d)
            l
            (load_modules at allocate_below file read_entry fuel (opened d) l)
    unfolding load_modules
    load_modules-HasLoaded fuel d l h f n = load_all-HasLoaded (contents d) fuel d l refl h f n
