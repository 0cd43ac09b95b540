-- ===== src/Boot/Information.antt =====
-- src/main.rs: the boot modules, loaded by modules.rs, as multiboot.rs hands them to the kernel.
use bang.Common.{
  ℕ, zero, suc, ◌+◌, ◌≤◌, ◌<◌, ◌≡◌, ◌≢◌, refl, sym, ap, subst, ◌∙◌, ◌⊎◌, inl, inr, false, Option,
  some, List, [], ◌∷◌, ◌++◌, All, arith, Memory, length, leb, leb→le, leb→lt, ◌==◌, Bool-cases,
}
use bang.Common.Text.{Text}
use bang.Gop.{FbInfo}
use bang.Modules.{ModuleInfo, to_ascii}
use bang.Modules.Loading.{File, Loaded, done, opened, load_modules}
use bang.Modules.Loading.Entry.{AreLoaded, nil, skip, load}
use bang.Modules.Loading.Intact.{HasNames, IsModule}
use bang.Modules.Loading.Rounds.{IsReadable, load_modules-HasLoaded}
use bang.Modules.Names.{ascii}
use bang.Multiboot.{MemoryDescriptor, Rsdp, info_pages, info_size}
use bang.Multiboot.Buffer.{Holds}
use bang.Multiboot.Mb2.{build_mb2_info}
use bang.Multiboot.Mb2.Names.{HasName, infos}
use bang.Multiboot.Mb2.Stages.{HasBytes}
use bang.Multiboot.Mb2.Tags.{Named, encode_info, sent_tags, total_size}
use bang.Multiboot.Reserve.{reserve, reserve-build_mb2_info}
use bang.Uefi.{FileInfo, DirectoryReader, LowMemory}
use bang.Uefi.Pages.{owned_outside}

to_ascii_printed : (v : ℕ) → (v == 0) ≡ false → to_ascii v ≢ 0
unfolding to_ascii
to_ascii_printed v h = ground arith

done-inj : {A : Type 0} {a b : A} → done a ≡ done b → a ≡ b
done-inj e = cc

ascii-All : (room : ℕ) (name : List ℕ) → All (λ b. b ≢ 0) (ascii room name)
ascii-All zero name = tt
ascii-All (suc room) [] = tt
ascii-All (suc room) (val ∷ name) = elim (Bool-cases (val == 0)) [
  | inl ended ↦ rw ended tt
  | inr more ↦ rw more (to_ascii_printed val more, ascii-All room name)
]

-- Bytes next to each other, none of them in a region, are all before it or all behind it.
outside_interval :
    (p n q k : ℕ)
    → 0 < n
    → ((a : ℕ) → p ≤ a → a < p + n → (a < q) ⊎ (q + k ≤ a))
    → 0 < k
    → (p + n ≤ q) ⊎ (q + k ≤ p)
outside_interval p n q k some_byte h room = elim (Bool-cases (leb (p + n) q)) [
  | inl before ↦ inl (leb→le _ _ before)
  | inr reaches ↦ elim (Bool-cases (leb p q)) [
    | inl starts ↦
        let out = h q (leb→le _ _ starts) (leb→lt _ _ reaches) in absurd (omega (arith, out))
    | inr behind ↦
        let out = h p (omega arith) (omega arith) in inr (omega (arith, out, leb→lt _ _ behind))
  ]
]

module _ (low : LowMemory) (at : ℕ) (file : Text → File) (l : Loaded low.S) (n : HasNames low at l)
    (base : ℕ) (s' : low.S)
    (given : low.allocate_below 0xffff_ffff l.firmware info_pages ≡ some (base, s')) where
  -- A module's name, as the builder wants it.
  named :
      (i : FileInfo) (bytes : List ℕ) (mi : ModuleInfo)
      → IsModule low at i bytes l.firmware l.names.pos l.names.mem mi
      → Named
  named i bytes mi h = record { info = mi; name = ascii h.room i.file_name }

  named-HasName :
      (i : FileInfo) (bytes : List ℕ) (mi : ModuleInfo)
      (h : IsModule low at i bytes l.firmware l.names.pos l.names.mem mi)
      → HasName base l.names.mem (named i bytes mi h)
  unfolding named
  named-HasName i bytes mi h = record {
    bytes = h.name;
    nonzero = ascii-All h.room i.file_name;
    short = omega (arith, h.name_start, h.name_end, n.buffer.within);
    apart =
        outside_interval mi.name_ptr (suc (length (ascii h.room i.file_name))) base info_size
          (omega arith)
          (λ a lo hi.
            let out = owned_outside low 0xffff_ffff l.firmware s' info_pages base a given (
              n.owned_names a (omega (arith, h.name_start))
                (omega (arith, h.name_end, n.buffer.within))) in
            omega (arith, out))
          (omega arith);
  }

  All-named :
      {s s' : low.S} {is : List FileInfo} {ms : List ModuleInfo}
      → AreLoaded low at file l s is ms s'
      → (nms : List Named) × (infos nms ≡ ms) × All (HasName base l.names.mem) nms
  unfolding named
  All-named nil = ([], refl, tt)
  All-named (skip i s s' why rest) = All-named rest
  All-named (load i bytes mi s s' f o g e m rest) =
      let (nms, same, names) = All-named rest in
      (named i bytes mi m ∷ nms, ap (◌∷◌ mi) same, (named-HasName i bytes mi m, names))

-- The modules that `load_modules` has loaded, from a directory whose entries all fit its buffer and
-- whose files can all be read, in the Multiboot 2 information that `build_mb2_info` makes of them
-- in the region that `reserve` was given afterwards: the modules are those of the entries, in
-- order; the builder returns the region's own address; and the region holds the encoded tags, in
-- which each module has the NUL-terminated name that was stored for it. Nothing is assumed of the
-- names: they are short, terminated and apart from the region by how they were loaded.
pub load_modules-build_mb2_info :
    (low : LowMemory) (dir : DirectoryReader) (at : ℕ) (file : Text → File) (fuel : ℕ) (d : dir.D)
    (l last : Loaded low.S) (s' : low.S) (base : ℕ) (ds : List MemoryDescriptor)
    (fb : Option FbInfo) (rsdp : Option Rsdp)
    → l.modules ≡ []
    → HasNames low at l
    → All (IsReadable low at file dir) (dir.contents d)
    → length (dir.contents d) < fuel
    → load_modules at low.allocate_below file dir.read_entry fuel (opened d) l ≡ done last
    → reserve low.allocate_below last.firmware ≡ some (base, s')
    → HasBytes rsdp
    → AreLoaded low at file last l.firmware (dir.contents d) last.modules last.firmware
      × (nms : List Named) × (infos nms ≡ last.modules)
      × All (HasName base last.names.mem) nms
      × (m' : Memory) × (build_mb2_info base ds fb last.modules rsdp last.names.mem
          ≡ some (base, m'))
      × Holds base
          (total_size (sent_tags ds fb nms rsdp))
          (encode_info (sent_tags ds fb nms rsdp))
          last.names.mem
          m'
unfolding reserve
load_modules-build_mb2_info low dir at file fuel d l last s' base ds fb rsdp empty n h f e got
      has_bytes =
    let r = load_modules-HasLoaded low at file dir fuel d l h f n in
    let same : r.last ≡ last = done-inj (sym r.result ∙ e) in
    let added : r.added ≡ last.modules =
      sym (ap (λ ms. ms ++ r.added) empty) ∙ sym r.modules ∙ ap (λ k. k.modules) same in
    let names : HasNames low at last = subst (λ k. HasNames low at k) same r.buffer in
    let loaded : AreLoaded low at file last l.firmware (dir.contents d) last.modules last.firmware =
      subst (λ ms. AreLoaded low at file last l.firmware (dir.contents d) ms last.firmware) added
        (subst (λ k. AreLoaded low at file k l.firmware (dir.contents d) r.added k.firmware) same
          r.are_loaded) in
    let (nms, is_them, all) = All-named low at file last names base s' got loaded in
    let (m', built, holds) =
      reserve-build_mb2_info low last.firmware s' base ds fb nms rsdp last.names.mem got has_bytes
        all in
    (
      loaded,
      nms,
      is_them,
      all,
      m',
      ap (λ ms. build_mb2_info base ds fb ms rsdp last.names.mem) (sym is_them) ∙ built,
      holds,
    )
