-- ===== src/Modules/Loading/Entry.antt =====
-- src/modules.rs: the body of the loop of `load_modules`, for one entry of the directory.
use bang.Common.{
  ℕ, ◌*◌, ◌≡◌, ◌≢◌, refl, sym, subst, inl, inr, true, false, Option, none, some, List, [], ◌∷◌,
  ◌++◌, append-nil, arith, ◌==◌, length, take, Bool-cases,
}
use bang.Common.Text.{Text}
use bang.Modules.{ModuleInfo}
use bang.Modules.Loading.{
  File, not_opened, read_fails, reads, Loaded, Loading, done, pages_for, read_module, allocated,
  load_file, load_entry,
}
use bang.Modules.Loading.Intact.{HasNames, IsModule, IsLater, IsLater-refl}
use bang.Modules.Loading.Stored.{
  kept, with_bytes, new_module, short-HasNames, short-IsLater, kept-HasNames, kept-IsLater,
  new_module-IsModule,
}
use bang.Uefi.{FileInfo, LowMemory}

module _ (low : LowMemory) (at : ℕ) (file : Text → File) where
  open low use {S, allocate_below, owned}

  -- Why an entry that is tried in the firmware's state `s` gives no module, and the state that it
  -- leaves.
  pub data IsSkipped (i : FileInfo) (s s' : S) : Type 0 where
    a_directory : i.is_directory ≡ true → s' ≡ s → IsSkipped i s s'
    is_empty : i.file_size ≡ 0 → s' ≡ s → IsSkipped i s s'
    unopened : file i.file_name ≡ not_opened → s' ≡ s → IsSkipped i s s'
    no_memory :
        allocate_below 0xffff_ffff s (pages_for i.file_size) ≡ none → s' ≡ s → IsSkipped i s s'
    short_read :
        (bytes : List ℕ) (phys : ℕ)
        → file i.file_name ≡ reads bytes
        → allocate_below 0xffff_ffff s (pages_for i.file_size) ≡ some (phys, s')
        → length (take (pages_for i.file_size * 4096) bytes) ≢ i.file_size
        → IsSkipped i s s'

  -- The entries, in order, from one state of the firmware to another, each with its module, in the
  -- pages that the firmware gave for it, or the reason that it has none.
  pub data AreLoaded (l : Loaded S) : S → List FileInfo → List ModuleInfo → S → Type 0 where
    nil : {s : S} → AreLoaded l s [] [] s
    skip :
        (i : FileInfo) (s s' : S) {s'' : S} {is : List FileInfo} {ms : List ModuleInfo}
        → IsSkipped i s s'
        → AreLoaded l s' is ms s''
        → AreLoaded l s (i ∷ is) ms s''
    load :
        (i : FileInfo) (bytes : List ℕ) (mi : ModuleInfo) (s s' : S) {s'' : S} {is : List FileInfo}
        {ms : List ModuleInfo}
        → i.is_directory ≡ false
        → file i.file_name ≡ reads bytes
        → allocate_below 0xffff_ffff s (pages_for i.file_size) ≡ some (mi.phys_start, s')
        → length (take (pages_for i.file_size * 4096) bytes) ≡ i.file_size
        → IsModule low at i bytes l.firmware l.names.pos l.names.mem mi
        → AreLoaded l s' is ms s''
        → AreLoaded l s (i ∷ is) (mi ∷ ms) s''

  -- The entries `is` have been gone through from `l` on, with the result `r`.
  pub record HasLoaded (is : List FileInfo) (l : Loaded S) (r : Loading (Loaded S)) : Type 0 where
    pub last : Loaded S
    pub result : r ≡ done last
    pub buffer : HasNames low at last
    pub later : IsLater low at l last
    pub added : List ModuleInfo
    pub modules : last.modules ≡ l.modules ++ added
    pub are_loaded : AreLoaded last l.firmware is added last.firmware

  skipped-HasLoaded :
      (i : FileInfo) (l : Loaded S)
      → HasNames low at l
      → IsSkipped i l.firmware l.firmware
      → HasLoaded (i ∷ []) l (done l)
  skipped-HasLoaded i l n why = record {
    last = l;
    result = refl;
    buffer = n;
    later = IsLater-refl low at l;
    added = [];
    modules = sym (append-nil l.modules);
    are_loaded = skip i l.firmware l.firmware why nil;
  }

  allocated-HasLoaded :
      (i : FileInfo) (bytes : List ℕ) (l : Loaded S) (pages : Option (ℕ × S))
      → HasNames low at l
      → i.is_directory ≡ false
      → file i.file_name ≡ reads bytes
      → allocate_below 0xffff_ffff l.firmware (pages_for i.file_size) ≡ pages
      → HasLoaded (i ∷ []) l (allocated at allocate_below i bytes l pages)
  unfolding read_module
  allocated-HasLoaded i bytes l none n f o e = skipped-HasLoaded i l n (no_memory e refl)
  allocated-HasLoaded i bytes l (some (phys, firmware)) n f o e =
      elim (Bool-cases (length (take (pages_for i.file_size * 4096) bytes) == i.file_size)) [
        | inl whole ↦ rw whole (record {
          last = kept low at i bytes l phys firmware e n;
          result = refl;
          buffer = kept-HasNames low at i bytes l phys firmware e n;
          later = kept-IsLater low at i bytes l phys firmware e n;
          added = new_module low at i bytes l phys firmware e n ∷ [];
          modules = refl;
          are_loaded =
              load i bytes (new_module low at i bytes l phys firmware e n) l.firmware firmware f o e
                (ground (arith, whole)) (new_module-IsModule low at i bytes l phys firmware e n)
                nil;
        })
        | inr short ↦ rw short (record {
          last = record l {
            names = with_bytes low at i bytes l phys firmware e;
            firmware = firmware;
          };
          result = refl;
          buffer = short-HasNames low at i bytes l phys firmware e n;
          later = short-IsLater low at i bytes l phys firmware e n;
          added = [];
          modules = sym (append-nil l.modules);
          are_loaded =
              skip i l.firmware firmware (short_read bytes phys o e (ground (arith, short))) nil;
        })
      ]

  load_file-HasLoaded :
      (i : FileInfo) (l : Loaded S) (f : File)
      → HasNames low at l
      → i.is_directory ≡ false
      → file i.file_name ≡ f
      → file i.file_name ≢ read_fails
      → HasLoaded (i ∷ []) l (load_file at allocate_below i f l)
  unfolding load_file
  load_file-HasLoaded i l not_opened n d o h = skipped-HasLoaded i l n (unopened o refl)
  load_file-HasLoaded i l read_fails n d o h = absurd (h o)
  load_file-HasLoaded i l (reads bytes) n d o h =
      allocated-HasLoaded i bytes l (allocate_below 0xffff_ffff l.firmware (pages_for i.file_size))
        n d o refl

  pub load_entry-HasLoaded :
      (i : FileInfo) (l : Loaded S)
      → HasNames low at l
      → file i.file_name ≢ read_fails
      → HasLoaded (i ∷ []) l (load_entry at allocate_below file i l)
  unfolding load_entry
  load_entry-HasLoaded i l n h = elim (Bool-cases i.is_directory) [
    | inl directory ↦
        same (rw directory refl) (skipped-HasLoaded i l n (a_directory directory refl))
    | inr regular ↦ elim (Bool-cases (i.file_size == 0)) [
      | inl empty ↦
          same (rw (regular, empty) refl)
            (skipped-HasLoaded i l n (is_empty (ground (arith, empty)) refl))
      | inr bytes ↦
          same (rw (regular, bytes) refl)
            (load_file-HasLoaded i l (file i.file_name) n regular refl h)
    ]
  ]
    where
      same :
          {r : Loading (Loaded S)}
          → load_entry at allocate_below file i l ≡ r
          → HasLoaded (i ∷ []) l r
          → HasLoaded (i ∷ []) l (load_entry at allocate_below file i l)
      same e = subst (λ r. HasLoaded (i ∷ []) l r) (sym e)
