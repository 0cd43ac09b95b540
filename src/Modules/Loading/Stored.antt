-- ===== src/Modules/Loading/Stored.antt =====
-- src/modules.rs: a file that was read is a module in memory, and nothing else has changed.
use bang.Common.{
  ℕ, zero, suc, ◌+◌, ◌-◌, ◌*◌, ◌≤◌, ◌<◌, ◌≡◌, refl, ap, subst, ◌∙◌, ◌⊎◌, inl, inr, true, some, List,
  [], ◌∷◌, ◌++◌, arith, write, fill, read, write_away, write_inside, fill_inside, fill_outside,
  length, length-take, take, get_or, get_or-take, ◌==◌, if◌then◌else◌, Bool-cases,
}
use bang.Modules.{cap, ModuleInfo, NameBuffer, store_name, to_ascii}
use bang.Modules.Loading.{Loaded, pages_for}
use bang.Modules.Loading.Intact.{HasNames, IsModule, IsLater}
use bang.Modules.Names.{ascii, IsNameBuffer, IsStored, store_name-IsStored, store_name_inside}
use bang.Uefi.{FileInfo, LowMemory}
use bang.Uefi.Pages
use bang.Uefi.Pages.{outside_swap}

-- A terminator at the end of a name changes nothing.
ascii_terminated : (room : ℕ) (name : List ℕ) → ascii room (name ++ 0 ∷ []) ≡ ascii room name
ascii_terminated zero name = refl
ascii_terminated (suc room) [] = refl
ascii_terminated (suc room) (val ∷ name) =
    ap (λ (s : List ℕ). if val == 0 then [] else to_ascii val ∷ s) (ascii_terminated room name)

module _ (low : LowMemory) (at : ℕ) where
  open low use {S, allocate_below, owned, ends_below, takes, keeps_owned}

  module _ (i : FileInfo) (bytes : List ℕ) (l : Loaded S) (phys : ℕ) (firmware : S)
      (given : allocate_below 0xffff_ffff l.firmware (pages_for i.file_size)
        ≡ some (phys, firmware)) where
    abbrev size : ℕ
    size = pages_for i.file_size * 4096

    abbrev pub read_bytes : List ℕ
    read_bytes = take size bytes

    abbrev pub with_bytes : NameBuffer
    with_bytes = record l.names { mem = write phys read_bytes (fill phys 0 size l.names.mem) }

    length-read_bytes : length read_bytes ≤ size
    length-read_bytes = omega (arith, length-take size bytes)

    -- What is in use is not in the new pages.
    owned_outside : (a : ℕ) → owned l.firmware a ≡ true → (a < phys) ⊎ (phys + size ≤ a)
    owned_outside a o =
        Pages.owned_outside low 0xffff_ffff l.firmware firmware (pages_for i.file_size) phys a given
          o

    with_bytes-frame : (a : ℕ) → (a < phys) ⊎ (phys + size ≤ a) → with_bytes.mem a ≡ l.names.mem a
    with_bytes-frame a p =
        write_away phys read_bytes (fill phys 0 size l.names.mem) a
          (omega (arith, p, length-read_bytes))
        ∙ fill_outside phys 0 size l.names.mem a p

    with_bytes-bytes : (k : ℕ) → k < size → with_bytes.mem (phys + k) ≡ get_or read_bytes k 0
    with_bytes-bytes k p =
        write_inside phys read_bytes (fill phys 0 size l.names.mem) k
        ∙ ap (get_or read_bytes k) (fill_inside phys 0 size l.names.mem k p)

    module _ (n : HasNames low at l) where
      names_outside : (a : ℕ) → at ≤ a → a < at + cap → (a < phys) ⊎ (phys + size ≤ a)
      names_outside a lo hi = owned_outside a (n.owned_names a lo hi)

      with_bytes-IsNameBuffer : IsNameBuffer at with_bytes
      with_bytes-IsNameBuffer = record {
        within = n.buffer.within;
        terminated = elim n.buffer.terminated [
          | inl first ↦ inl first
          | inr ends ↦ elim (Bool-cases (l.names.pos == 0)) [
            | inl first ↦ inl (ground arith)
            | inr later ↦
                let pos : 0 < l.names.pos = ground arith in
                inr (
                  with_bytes-frame (at + (l.names.pos - 1)) (
                    names_outside (at + (l.names.pos - 1)) (omega arith)
                      (omega (arith, pos, n.buffer.within)))
                  ∙ ends)
          ]
        ];
      }

      -- A read that was too short leaves the bytes and no module.
      pub short-HasNames : HasNames low at (record l { names = with_bytes; firmware = firmware })
      short-HasNames = record {
        buffer = with_bytes-IsNameBuffer;
        owned_names = λ a lo hi.
            keeps_owned 0xffff_ffff l.firmware firmware (pages_for i.file_size) phys a given
              (n.owned_names a lo hi);
      }

      pub short-IsLater : IsLater low at l (record l { names = with_bytes; firmware = firmware })
      short-IsLater = record {
        keeps = λ a o.
            keeps_owned 0xffff_ffff l.firmware firmware (pages_for i.file_size) phys a given o;
        grows = omega arith;
        same = λ a o p. with_bytes-frame a (owned_outside a o);
      }

      abbrev stored : ℕ × NameBuffer
      stored = store_name at (i.file_name ++ 0 ∷ []) with_bytes

      abbrev pub new_module : ModuleInfo
      new_module = record { name_ptr = stored.0; phys_start = phys; size = i.file_size }

      abbrev pub kept : Loaded S
      kept = record {
        modules = l.modules ++ new_module ∷ [];
        names = stored.1;
        firmware = firmware;
      }

      stored-IsStored : IsStored at (i.file_name ++ 0 ∷ []) with_bytes stored
      stored-IsStored =
          store_name-IsStored at (i.file_name ++ 0 ∷ []) with_bytes with_bytes-IsNameBuffer

      pub kept-HasNames : HasNames low at kept
      kept-HasNames = record {
        buffer = stored-IsStored.buffer;
        owned_names = λ a lo hi.
            keeps_owned 0xffff_ffff l.firmware firmware (pages_for i.file_size) phys a given
              (n.owned_names a lo hi);
      }

      pub kept-IsLater : IsLater low at l kept
      kept-IsLater = record {
        keeps = λ a o.
            keeps_owned 0xffff_ffff l.firmware firmware (pages_for i.file_size) phys a given o;
        grows = stored-IsStored.grows;
        same = λ a o p. stored-IsStored.kept a p ∙ with_bytes-frame a (owned_outside a o);
      }

      pages_outside : (a : ℕ) → phys ≤ a → a < phys + size → (a < at) ⊎ (at + cap ≤ a)
      pages_outside = outside_swap at cap phys size names_outside

      pub new_module-IsModule :
          IsModule low at i bytes firmware stored.1.pos stored.1.mem new_module
      new_module-IsModule =
          let same = ascii_terminated (cap - 1 - l.names.pos) i.file_name in
          let (starts, ends) =
            store_name_inside at (i.file_name ++ 0 ∷ []) with_bytes with_bytes-IsNameBuffer in
          record {
            size = refl;
            below =
                let b =
                  ends_below 0xffff_ffff l.firmware firmware (pages_for i.file_size) phys given in
                omega (arith, b);
            owned_pages = λ a lo hi.
                takes 0xffff_ffff l.firmware firmware (pages_for i.file_size) phys a given lo hi;
            apart = pages_outside;
            bytes = λ k p.
                stored-IsStored.kept (phys + k) (
                  let out = pages_outside (phys + k) (omega arith) (omega arith) in
                  elim out [ inl before ↦ inl (omega arith) | inr behind ↦ inr behind ])
                ∙ with_bytes-bytes k p
                ∙ get_or-take size bytes k 0 p;
            room = cap - 1 - l.names.pos;
            name =
                subst (λ (s : List ℕ). read (suc (length s)) stored.0 stored.1.mem ≡ s ++ 0 ∷ [])
                  same stored-IsStored.string;
            name_start = starts;
            name_end =
                let e : length (ascii (cap - 1 - l.names.pos) (i.file_name ++ 0 ∷ []))
                    ≡ length (ascii (cap - 1 - l.names.pos) i.file_name) =
                  ap length same in
                omega (arith, e, ends);
          }
