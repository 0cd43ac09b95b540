-- ===== src/Boot/Kernel.antt =====
-- src/main.rs: `main` from the kernel and its modules to the jump, with memory as the firmware left
-- it.
use bang.Common.{
  ℕ, ◌≡◌, refl, sym, ap, subst, ◌∙◌, inl, inr, Bool, true, Option, none, some, List, All, Memory,
  ◌==◌, if◌then◌else◌, Option-cases,
}
use bang.Boot.{Info, mb1_info, mb2_info, no_info, Jump, trampoline, handoff, enter, enter_in}
use bang.Elf.{BootMode, protected32, long64, KernelInfo}
use bang.Gop.{FbInfo, Mode, query_gop}
use bang.Modules.{ModuleInfo}
use bang.Multiboot.{MemoryDescriptor, Rsdp}
use bang.Multiboot.Acpi.{ConfigTableEntry, find_rsdp}
use bang.Multiboot.Acpi.Laws.{find_rsdp-IsCopy}
use bang.Multiboot.Buffer.{Holds}
use bang.Multiboot.Mb1.{build_mb1_info}
use bang.Multiboot.Mb2.{build_mb2_info}
use bang.Multiboot.Mb2.Names.{HasName, infos}
use bang.Multiboot.Mb2.Stages.{HasBytes}
use bang.Multiboot.Mb2.Tags.{Named, encode_info, sent_tags, total_size}
use bang.Multiboot.Reserve.{reserve, reserve-build_mb2_info}
use bang.Uefi.{LowMemory}

-- `Status::OUT_OF_RESOURCES`, a module's name without an end, or the call of `boot_jump_to_kernel` or
-- `boot_handoff_64` with the address of the information, and the memory at the call: what the
-- trampoline then copies to 0x1000 is in Trampoline.antt.
pub data Entering : Type 0 where
  out_of_resources unfinished : Entering
  calls : Jump → ℕ → Memory → Entering

abbrev pub info_of : Jump → Info
info_of (trampoline entry info magic) = info
info_of (handoff entry info) = info

abbrev jumped : Jump → Option (ℕ × Memory) → Entering
jumped j none = unfinished
jumped j (some (address, m)) = calls j address m

module _ {S : Type 0} (allocate_below : ℕ → S → ℕ → Option (ℕ × S)) (k : KernelInfo)
    (mods : List ModuleInfo) (mode : Option Mode) (tables : List ConfigTableEntry)
    (ds : List MemoryDescriptor) (m : Memory) where
  -- What only Multiboot 2 has a place for.
  abbrev pub fb : Option FbInfo
  fb = if k.mb_version == 2 then query_gop mode else none

  abbrev pub rsdp : Option Rsdp
  rsdp = if k.mb_version == 2 then find_rsdp tables m else none

  abbrev information : ℕ → Info → Option (ℕ × Memory)
  information base mb1_info = some (build_mb1_info base ds mods m)
  information base mb2_info = build_mb2_info base ds fb mods rsdp m
  information base no_info = some (0, m)

  abbrev with_region : Option (ℕ × S) → Entering
  with_region none = out_of_resources
  with_region (some (base, fw)) = jumped (enter k) (information base (info_of (enter k)))

  unfoldable pub boot_kernel : S → Entering
  boot_kernel fw = with_region (reserve allocate_below fw)

  boot_kernel-mb2_info :
      (fw fw' : S) (base : ℕ)
      → k.mb_version ≡ 2
      → info_of (enter k) ≡ mb2_info
      → reserve allocate_below fw ≡ some (base, fw')
      → boot_kernel fw
        ≡ jumped (enter k) (build_mb2_info base ds (query_gop mode) mods (find_rsdp tables m) m)
  unfolding boot_kernel
  boot_kernel-mb2_info fw fw' base v asks given =
      let yes : (k.mb_version == 2) ≡ true = rw v refl in
      ap with_region given
      ∙ ap (λ i. jumped (enter k) (information base i)) asks
      ∙ ap
          (λ (b : Bool). jumped (enter k) (
            build_mb2_info base ds (if b then query_gop mode else none) mods
              (if b then find_rsdp tables m else none) m))
          yes

enter-mb2_info : (k : KernelInfo) → k.mb_version ≡ 2 → info_of (enter k) ≡ mb2_info
unfolding enter enter_in
enter-mb2_info k v = by_mode k.boot_mode
  where
    by_mode : (mode : BootMode) → info_of (enter_in mode k) ≡ mb2_info
    by_mode protected32 = rw v refl
    by_mode long64 = rw v refl

pub find_rsdp-HasBytes :
    (tables : List ConfigTableEntry) (m : Memory) → HasBytes (find_rsdp tables m)
find_rsdp-HasBytes tables m = elim (Option-cases (find_rsdp tables m)) [
  | inl missing ↦ rw missing tt
  | inr (r, found) ↦
      let (at, is_there, copy, same) = find_rsdp-IsCopy tables m r found in
      subst HasBytes (sym found) copy.has_bytes
]

-- A Multiboot 2 kernel, in whichever mode it is entered, with modules whose names are terminated
-- and outside the region that was reserved: it is to be entered with the region's own address, and the
-- region holds the encoded memory map, modules, the framebuffer that the firmware reported and the
-- ACPI root pointer that its tables led to.
pub boot_kernel-Holds :
    (low : LowMemory) (s s' : low.S) (base : ℕ) (k : KernelInfo) (nms : List Named)
    (mode : Option Mode) (tables : List ConfigTableEntry) (ds : List MemoryDescriptor) (m : Memory)
    → k.mb_version ≡ 2
    → reserve low.allocate_below s ≡ some (base, s')
    → All (HasName base m) nms
    → (m' : Memory) × (boot_kernel low.allocate_below k (infos nms) mode tables ds m s
        ≡ calls (enter k) base m')
      × Holds base
          (total_size (sent_tags ds (query_gop mode) nms (find_rsdp tables m)))
          (encode_info (sent_tags ds (query_gop mode) nms (find_rsdp tables m)))
          m
          m'
boot_kernel-Holds low s s' base k nms mode tables ds m v given names =
    let (m', built, holds) =
      reserve-build_mb2_info low s s' base ds (query_gop mode) nms (find_rsdp tables m) m given
        (find_rsdp-HasBytes tables m) names in
    (
      m',
      boot_kernel-mb2_info low.allocate_below k (infos nms) mode tables ds m s s' base v
            (enter-mb2_info k v) given
          ∙ ap (jumped (enter k)) built,
      holds,
    )
