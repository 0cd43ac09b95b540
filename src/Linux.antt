-- ===== src/Linux.antt =====
-- src/linux.rs: the checks of a bzImage, where its kernel goes, and the `boot_params` page, which
-- is memory addressed by offset. The image is the bytes that `read_file` returned.
pub mod Boot
pub mod Command
pub mod Handed
pub mod Image
pub mod Params
pub mod Reading
pub mod Regions
use bang.Common.{
  ℕ, ◌+◌, ◌-◌, ◌*◌, ◌/◌, ◌%◌, ◌^◌, min, max, Bool, true, false, not, ◌||◌, Option, none, some, List,
  [], ◌∷◌, Memory, write, ltb, leb, ◌==◌, if◌then◌else◌, length, take, drop, le_bytes, from_le,
  get_or,
}
use bang.Elf.{word}

pub data Status : Type 0 where
  not_found load_error unsupported out_of_resources : Status

pub data Outcome (A : Type 0) : Type 0 where
  ok : A → Outcome A
  fail : Status → Outcome A

-- What the header says that is used later.
pub record Setup : Type 0 where
  pub kernel_offset : ℕ
  pub handover_offset : ℕ
  pub init_size : ℕ
  pub alignment : ℕ
  pub relocatable : Bool
  pub pref_address : ℕ

abbrev pub setup_sects : List ℕ → ℕ
setup_sects image = let n = word 1 image 0x1f1 in if n == 0 then 4 else n

abbrev setup_of : List ℕ → Setup
setup_of image = record {
  kernel_offset = (setup_sects image + 1) * 512;
  handover_offset = word 4 image 0x264;
  init_size = word 4 image 0x260;
  alignment = word 4 image 0x230;
  relocatable = not (word 1 image 0x234 == 0);
  pref_address = word 8 image 0x258;
}

-- The checks of `boot`, in order.
unfoldable pub check : List ℕ → Outcome Setup
unfolding setup_of
check image =
    if ltb (length image) 0x1000
    then fail load_error
    else if not (word 2 image 0x1fe == 0xaa55) || not (word 4 image 0x202 == 0x5372_6448)
    then fail load_error
    else if ltb (word 2 image 0x206) 0x20b
    then fail unsupported
    else if word 2 image 0x236 / 8 % 2 == 0
    then fail unsupported
    else if leb (length image) ((setup_sects image + 1) * 512)
    then fail load_error
    else ok (setup_of image)

-- `next_multiple_of`, for an alignment above 1.
abbrev pub next_multiple_of : ℕ → ℕ → ℕ
next_multiple_of addr alignment =
    if addr % alignment == 0 then addr else addr + (alignment - addr % alignment)

abbrev pub div_ceil : ℕ → ℕ
div_ceil bytes = (bytes + 4095) / 4096

-- `init_size.max(kernel_bytes.len())`
abbrev pub need : List ℕ → Setup → ℕ
need image s = max s.init_size (length image - s.kernel_offset)

module _ {S : Type 0} (allocate : S → ℕ → ℕ → Option S)
    (allocate_below : ℕ → S → ℕ → Option (ℕ × S)) where
  unfoldable pub alloc_low : S → ℕ → Option (ℕ × S)
  alloc_low s bytes = allocate_below 0x1_0000_0000 s (max (div_ceil bytes) 1)

  abbrev aligned : Setup → Option (ℕ × S) → Outcome (ℕ × S)
  aligned s none = fail out_of_resources
  aligned s (some (p, fw)) =
      ok ((if ltb 1 s.alignment then next_multiple_of p s.alignment else p), fw)

  abbrev fixed : Setup → Option S → Outcome (ℕ × S)
  fixed s none = fail out_of_resources
  fixed s (some fw) = ok (s.pref_address, fw)

  -- The address of the kernel, and the firmware's state.
  unfoldable pub place_kernel : List ℕ → Setup → S → Outcome (ℕ × S)
  unfolding alloc_low aligned fixed
  place_kernel image s fw =
      if s.relocatable
      then aligned s (alloc_low fw (need image s + s.alignment))
      else fixed s (allocate fw s.pref_address (div_ceil (need image s)))

-- Where the header stops in the file.
abbrev pub hdr_end : List ℕ → ℕ
hdr_end image = min (min (0x202 + word 1 image 0x201) (length image)) 4096

abbrev put_initrd : Option (ℕ × ℕ) → Memory → Memory
put_initrd none bp = bp
put_initrd (some (at, len)) bp = write 0x21c (le_bytes 4 len) (write 0x218 (le_bytes 4 at) bp)

-- The page for a command line at `cmd_mem`, an initrd at an address with its length, and a kernel
-- at `kernel_mem`.
unfoldable pub boot_params : List ℕ → ℕ → Option (ℕ × ℕ) → ℕ → Memory
unfolding put_initrd
boot_params image cmd_mem initrd kernel_mem =
    let header = take (hdr_end image - 0x1f1) (drop 0x1f1 image) in
    let bp1 = write 0x1f1 header (λ o. 0) in
    let bp2 = write 0x228 (le_bytes 4 cmd_mem) bp1 in
    let bp3 = put_initrd initrd bp2 in
    let bp4 = write 0x210 (0xff ∷ []) bp3 in
    let flags = bp4 0x211 in
    let bp5 = write 0x211 ((flags + (1 - flags % 2)) ∷ []) bp4 in
    write 0x214 (le_bytes 4 kernel_mem) bp5

-- The 64-bit entry point.
abbrev pub entry_point : Setup → ℕ → ℕ
entry_point s kernel_mem = kernel_mem + s.handover_offset + 512
