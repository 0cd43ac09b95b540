-- ===== src/Linux/Handed.antt =====
-- src/linux.rs: what the memory holds when the kernel is entered.
pub mod Fields
pub mod Ramdisks
pub mod Stores
pub mod Whole
use bang.Common.{
  ℕ, ◌+◌, ◌-◌, ◌*◌, ◌/◌, ◌%◌, ◌^◌, ◌≤◌, ◌<◌, ◌≡◌, refl, sym, ap, subst, ◌∙◌, ◌⊎◌, inl, inr, min,
  max, Bool, true, false, Option, none, some, List, [], ◌∷◌, ◌++◌, arith, Memory, write, write_away,
  length, drop, get_or,
}
use bang.Common.Text.{Text}
use bang.Elf.{word}
use bang.Linux.{Setup, Outcome, ok, check, need, div_ceil, boot_params, alloc_low}
use bang.Linux.Boot.{Booting, done, ◌>>=◌, Handover}
use bang.Linux.Command.{command_line}
use bang.Linux.Reading.{Read, whole, unread}
use bang.Linux.Regions.{Region, Beside}
use bang.Uefi.{LowMemory, FixedMemory}

-- `alloc_low` asks for enough pages.
pub enough_pages : (bytes : ℕ) → bytes ≤ max (div_ceil bytes) 1 * 4096
enough_pages bytes = ground arith

pub some_page : (bytes : ℕ) → 4096 ≤ max (div_ceil bytes) 1 * 4096
some_page bytes = ground arith

-- A step that was done, and the rest after it.
pub done-bind :
    {A B : Type 0} (r : Booting A) (f : A → Booting B) {b : B}
    → (r >>= f) ≡ done b
    → (a : A) × (r ≡ done a) × (f a ≡ done b)
done-bind (done a) f e = (a, refl, e)
done-bind (Booting.returns status) f e = cc
done-bind Booting.panics f e = cc
done-bind Booting.unfinished f e = cc

pub done-inj : {A : Type 0} {a b : A} → done a ≡ done b → a ≡ b
done-inj e = cc

module _ (low : LowMemory) (fixed : FixedMemory low) (file : Text → Read) where
  -- What became of the initrd: where it is and its bytes, or why it is left out, where `fw` is the
  -- state that the firmware is in from then on.
  pub data Ramdisk (path : Option Text) (fw : low.S) : Option (ℕ × List ℕ) → Type 0 where
    not_wanted : path ≡ none → Ramdisk path fw none
    not_read : (p : Text) → path ≡ some p → file p ≡ unread → Ramdisk path fw none
    no_memory :
        (p : Text) (bytes : List ℕ)
        → path ≡ some p
        → file p ≡ whole bytes
        → alloc_low fixed.allocate low.allocate_below fw (length bytes) ≡ none
        → Ramdisk path fw none
    loaded :
        (p : Text) (bytes : List ℕ) (at : ℕ) (before : low.S)
        → path ≡ some p
        → file p ≡ whole bytes
        → alloc_low fixed.allocate low.allocate_below before (length bytes) ≡ some (at, fw)
        → Ramdisk path fw (some (at, bytes))

  abbrev pub sizes : Option (ℕ × List ℕ) → Option (ℕ × ℕ)
  sizes none = none
  sizes (some (at, bytes)) = some (at, length bytes)

  abbrev pub HasRamdisk : ℕ → low.S → Memory → Option (ℕ × List ℕ) → Type 0
  HasRamdisk params fw m none = Unit
  HasRamdisk params fw m (some (at, bytes)) =
      Region low fw at (length bytes) (λ o. get_or bytes o 0) m
      × Beside params at (length bytes)
      × (at < 2 ^ 32)

  -- The kernel is entered 512 bytes and the header's offset into its code, which is in memory with
  -- zeros up to the size that it needs; the page at `params` is the one described by `boot_params`;
  -- the command line stands, cut and terminated, at the address in the page; and the initrd too.
  pub record IsHandedOver (image : List ℕ) (path : Option Text) (cmdline : Text)
      (h : Handover low.S) : Type 0 where
    pub setup : Setup
    pub is_checked : check image ≡ ok setup
    pub kernel_mem : ℕ
    pub cmd_mem : ℕ
    pub cl : List ℕ
    pub is_cut : command_line (word 4 image 0x238) cmdline ≡ some cl
    pub initrd : Option (ℕ × List ℕ)
    pub is_ramdisk : Ramdisk path h.firmware initrd
    pub entry : h.entry ≡ kernel_mem + setup.handover_offset + 512
    pub kernel :
        Region low h.firmware kernel_mem
          (need image setup)
          (λ o. get_or (drop setup.kernel_offset image) o 0)
          h.memory
    pub page :
        Region low h.firmware h.params 4096
          (boot_params image cmd_mem (sizes initrd) kernel_mem)
          h.memory
    pub command :
        Region low h.firmware cmd_mem (length cl + 1) (λ o. get_or (cl ++ 0 ∷ []) o 0) h.memory
    pub ramdisk : HasRamdisk h.params h.firmware h.memory initrd
    pub low_addresses : (h.params < 2 ^ 32) × (cmd_mem < 2 ^ 32)
