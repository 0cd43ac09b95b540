-- ===== src/Modules/Loading/Intact.antt =====
-- src/modules.rs: what a loaded module is in memory, and that nothing that follows touches it.
use bang.Common.{
  ℕ, suc, ◌+◌, ◌*◌, ◌^◌, ◌≤◌, ◌<◌, ◌≡◌, refl, ◌∙◌, ◌⊎◌, inl, inr, true, List, [], ◌∷◌, ◌++◌, arith,
  Memory, read, read_congr, length, get_or,
}
use bang.Modules.{cap, ModuleInfo}
use bang.Modules.Loading.{Loaded, pages_for}
use bang.Modules.Names.{ascii, IsNameBuffer}
use bang.Uefi.{FileInfo, LowMemory}

module _ (low : LowMemory) (at : ℕ) where
  open low use {S, allocate_below, owned, ends_below, fresh, takes, keeps_owned}

  -- The buffer of names is the loader's own memory, and as `store_name` keeps it.
  pub record HasNames (l : Loaded S) : Type 0 where
    pub buffer : IsNameBuffer at l.names
    pub owned_names : (a : ℕ) → at ≤ a → a < at + cap → owned l.firmware a ≡ true

  -- A module of the file `i` with the bytes `bs`: it lies below four gigabytes in pages that are
  -- the loader's, apart from the names; they hold the bytes, then zeros; and its name stands, in
  -- ASCII and with its terminator, at or below `end` in the buffer.
  pub record IsModule (i : FileInfo) (bs : List ℕ) (firmware : S) (end : ℕ) (m : Memory)
      (mi : ModuleInfo) : Type 0 where
    pub size : mi.size ≡ i.file_size
    pub below : mi.phys_start + pages_for i.file_size * 4096 ≤ 2 ^ 32
    pub owned_pages :
        (a : ℕ)
        → mi.phys_start ≤ a
        → a < mi.phys_start + pages_for i.file_size * 4096
        → owned firmware a ≡ true
    pub apart :
        (a : ℕ)
        → mi.phys_start ≤ a
        → a < mi.phys_start + pages_for i.file_size * 4096
        → (a < at) ⊎ (at + cap ≤ a)
    pub bytes : (k : ℕ) → k < pages_for i.file_size * 4096 → m (mi.phys_start + k) ≡ get_or bs k 0
    pub room : ℕ
    pub name :
        read (suc (length (ascii room i.file_name))) mi.name_ptr m
        ≡ ascii room i.file_name ++ 0 ∷ []
    pub name_start : at ≤ mi.name_ptr
    pub name_end : mi.name_ptr + suc (length (ascii room i.file_name)) ≤ at + end

  -- What a later round may change: the firmware's state, and memory that is nobody's, or the
  -- buffer of names from the position on.
  pub record IsLater (l l' : Loaded S) : Type 0 where
    pub keeps : (a : ℕ) → owned l.firmware a ≡ true → owned l'.firmware a ≡ true
    pub grows : l.names.pos ≤ l'.names.pos
    pub same :
        (a : ℕ)
        → owned l.firmware a ≡ true
        → (a < at + l.names.pos) ⊎ (at + cap ≤ a)
        → l'.names.mem a ≡ l.names.mem a

  pub IsLater-refl : (l : Loaded S) → IsLater l l
  IsLater-refl l = record { keeps = λ a o. o; grows = omega arith; same = λ a o p. refl }

  pub IsModule-later :
      (i : FileInfo) (bs : List ℕ) (l l' : Loaded S) (mi : ModuleInfo)
      → HasNames l
      → IsLater l l'
      → IsModule i bs l.firmware l.names.pos l.names.mem mi
      → IsModule i bs l'.firmware l'.names.pos l'.names.mem mi
  IsModule-later i bs l l' mi n later h = record {
    size = h.size;
    below = h.below;
    owned_pages = λ a lo hi. later.keeps a (h.owned_pages a lo hi);
    apart = h.apart;
    bytes = λ k p.
        later.same (mi.phys_start + k)
          (h.owned_pages (mi.phys_start + k) (omega arith) (omega arith))
          (elim (h.apart (mi.phys_start + k) (omega arith) (omega arith)) [
            | inl before ↦ inl (omega arith)
            | inr behind ↦ inr behind
          ])
        ∙ h.bytes k p;
    room = h.room;
    name =
        read_congr (suc (length (ascii h.room i.file_name))) mi.name_ptr l'.names.mem l.names.mem
          (λ a lo hi.
            later.same a
              (n.owned_names a (omega (arith, h.name_start))
                (omega (arith, h.name_end, n.buffer.within)))
              (inl (omega (arith, h.name_end))))
        ∙ h.name;
    name_start = h.name_start;
    name_end = omega (arith, h.name_end, later.grows);
  }
