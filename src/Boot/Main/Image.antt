-- ===== src/Boot/Main/Image.antt =====
-- src/main.rs: the kernel's own image, from its file to its first instruction.
use bang.Common.{
  ℕ, ◌+◌, ◌≤◌, ◌<◌, ◌^◌, ◌≡◌, sym, ap, ◌∙◌, ◌⊎◌, arith, true, Option, none, some, List, [], All,
  Memory, length,
}
use bang.Common.Text.{Text}
use bang.Boot.{enter}
use bang.Boot.Kernel.{Entering, out_of_resources, calls}
use bang.Boot.Main.{World, entering, start}
use bang.Boot.Main.Kernel.{before_modules, IsBooted, start-IsBooted}
use bang.Boot.Machine.{perform, perform-memory, at_call, IsPlaced-keeps, IsStarted, enter-IsStarted}
use bang.Trampoline.{Cpu, Layout, tramp_addr, rsp}
use bang.Trampoline.Left.{IsPlaced}
use bang.Config.{multiboot}
use bang.Elf.{KernelInfo}
use bang.Elf.Kernel.{ok, load_kernel}
use bang.Elf.Kernel.File.{load_opened-whole}
use bang.Elf.Kernel.Image.{image_byte, HasRoom, kernel_segments}
use bang.Elf.Kernel.Owned.{load_kernel-owned}
use bang.Elf.Segment.{Loader}
use bang.Gop.{Mode}
use bang.Modules.{cap}
use bang.Modules.Loading.{Loaded, opened}
use bang.Modules.Loading.Entry.{AreLoaded}
use bang.Modules.Loading.Intact.{HasNames}
use bang.Modules.Loading.Rounds.{IsReadable}
use bang.Multiboot.{MemoryDescriptor}
use bang.Multiboot.Acpi.{ConfigTableEntry}
use bang.Multiboot.Reserve.{reserve}
use bang.Uefi.{DirectoryReader, LowMemory, FixedMemory}

-- `main` returns because the firmware, in the state `fw`, refuses the pages for the information; or
-- it comes to the call of the trampoline or the handoff with the kernel's whole image in memory, but
-- for the buffer of names at `at`, and the machine `c` then starts the kernel, as its header asks,
-- with the information, and with the image but for what lies in the trampoline's copy or is pushed.
pub data IsInPlace (low : LowMemory) (fw : low.S) (buf : List ℕ) (at : ℕ) (k : KernelInfo)
    (lay : Layout) (here : ℕ) (c : Cpu) : Entering → Type 0 where
  no_room :
      reserve low.allocate_below fw ≡ none → IsInPlace low fw buf at k lay here c out_of_resources
  in_place :
      (base : ℕ) (m : Memory)
      → ((a b : ℕ)
          → image_byte buf (kernel_segments buf) a ≡ some b
          → (a < at) ⊎ (at + cap ≤ a)
          → m a ≡ b)
      → IsStarted buf k
          (λ i. base)
          lay
          (at_call c m)
          (perform lay here (λ i. base) (enter k) (at_call c m))
      → ((a b : ℕ)
          → image_byte buf (kernel_segments buf) a ≡ some b
          → (a < at) ⊎ (at + cap ≤ a)
          → (a < tramp_addr) ⊎ (tramp_addr + lay.size ≤ a)
          → (a + 16 < c.regs rsp) ⊎ (c.regs rsp ≤ a)
          → (perform lay here (λ i. base) (enter k) (at_call c m)).memory a ≡ b)
      → IsInPlace low fw buf at k lay here c (calls (enter k) base m)

-- The trampoline's piece is the loader's own, and apart from the buffer of names.
abbrev pub IsKeptPiece : (low : LowMemory) → low.S → ℕ → Layout → ℕ → Type 0
IsKeptPiece low fw at lay here =
    ((here + lay.size ≤ at) ⊎ (at + cap ≤ here))
    × ((a : ℕ) → here ≤ a → a < here + lay.size → low.owned fw a ≡ true)

IsBooted-IsInPlace :
    (low : LowMemory) (fixed : FixedMemory low) (at : ℕ) (buf : List ℕ) (l l' : Loader low.S)
    (k : KernelInfo) (mode : Option Mode) (tables : List ConfigTableEntry)
    (ds : List MemoryDescriptor) (last : Loaded low.S) (lay : Layout) (here : ℕ) (c : Cpu)
    {result : Entering}
    → length buf < 2 ^ 64
    → All HasRoom (kernel_segments buf)
    → l.records ≡ []
    → load_kernel fixed.allocate buf l ≡ ok (k, l')
    → IsPlaced lay here (at_call c l'.mem)
    → IsKeptPiece low l'.firmware at lay here
    → IsBooted low at (before_modules l') k mode tables ds last result
    → IsInPlace low last.firmware buf at k lay here c result
IsBooted-IsInPlace low fixed at buf l l' k mode tables ds last lay here c fits room none_yet loads
      placed piece (IsBooted.no_room why) =
    no_room why
IsBooted-IsInPlace low fixed at buf l l' k mode tables ds last lay here c fits room none_yet loads
      placed piece (IsBooted.in_kernel base s' nms m' given same holds keeps) =
    let whole : (a b : ℕ)
        → image_byte buf (kernel_segments buf) a ≡ some b
        → (a < at) ⊎ (at + cap ≤ a)
        → m' a ≡ b =
      λ a b reached apart.
        let (byte, mine) =
          load_kernel-owned low fixed buf l l' k a b fits room none_yet loads reached in
        keeps a mine apart ∙ byte in
    let still =
      IsPlaced-keeps lay here c l'.mem m'
        (λ a lo hi. keeps a (piece.1 a lo hi) (omega (arith, piece.0, lo, hi))) placed in
    in_place base m' whole
      (enter-IsStarted lay here (at_call c m') still fixed.allocate buf l k l' (λ i. base) loads)
      (λ a b reached apart outside off_stack.
        perform-memory lay here (at_call c m') still (λ i. base) (enter k) a outside off_stack
        ∙ whole a b reached apart)

-- A Multiboot 2 entry with a directory of modules, whose kernel's file is read whole and loads with
-- no page on record yet, with segments that all end at least a page below 2^64, and whose directory
-- opens and has readable files and fewer entries than there is fuel, with the buffer of names in the
-- loader's own memory; and a machine on which, once the kernel is loaded, the trampoline is placed as
-- `IsPlaced` says, in the loader's own memory and apart from the buffer of names. Either `main`
-- returns because the firmware, in the state that the modules have left, refuses the pages for the
-- information. Or it comes to the call of the trampoline or the handoff with the image of the
-- kernel's segments in memory, each byte outside the buffer of names as the file or the zeros behind
-- it have it, whatever the modules and the information took; and the machine, with this memory,
-- starts the kernel as its header asks, with the address of the information, and with these bytes,
-- but for those that lie in the trampoline's copy at 0x1000 or in the sixteen bytes pushed on the
-- stack.
pub start-IsInPlace :
    {F : Type 0} (low : LowMemory) (fixed : FixedMemory low) (dir : DirectoryReader)
    (w : World low.S dir.D F) (kernel path : Text) (k : KernelInfo) (l : Loader low.S) (d : dir.D)
    (size : ℕ) (f : F) (buf : List ℕ) (lay : Layout) (here : ℕ) (c : Cpu)
    → w.allocate ≡ fixed.allocate
    → w.allocate_below ≡ low.allocate_below
    → w.read_entry ≡ dir.read_entry
    → w.open_file kernel ≡ some (size, f)
    → (w.read_some f size).0 ≡ some buf
    → length buf ≡ size
    → size < 2 ^ 64
    → w.loader.records ≡ []
    → load_kernel w.allocate buf w.loader ≡ ok (k, l)
    → All HasRoom (kernel_segments buf)
    → k.mb_version ≡ 2
    → w.open_directory path ≡ opened d
    → HasNames low w.names_at (before_modules l)
    → All (IsReadable low w.names_at (w.file_in path) dir) (dir.contents d)
    → length (dir.contents d) < w.fuel
    → IsPlaced lay here (at_call c l.mem)
    → IsKeptPiece low l.firmware w.names_at lay here
    → (last : Loaded low.S) × (result : Entering) × (start w (multiboot kernel (some path))
        ≡ entering result)
      × AreLoaded low w.names_at
          (w.file_in path)
          last
          l.firmware
          (dir.contents d)
          last.modules
          last.firmware
      × IsInPlace low last.firmware buf w.names_at k lay here c result
start-IsInPlace low fixed dir w kernel path k l d size f buf lay here c fixes gives reads opens got
      sized word none_yet loads room v opens_dir n readable fuel placed piece =
    let whole =
      load_opened-whole w.read_some w.allocate (w.open_file kernel) size f buf w.loader opens got
        sized in
    let (last, result, same, loaded, booted) =
      start-IsBooted low dir w kernel path k l d gives reads (whole ∙ loads) v opens_dir n readable
        fuel in
    let fixed_loads = ap (λ al. load_kernel al buf w.loader) (sym fixes) ∙ loads in
    (
      last,
      result,
      same,
      loaded,
      IsBooted-IsInPlace low fixed w.names_at buf w.loader l k w.mode w.tables w.memory_map last lay
          here c (omega (arith, sized, word)) room none_yet fixed_loads placed piece booted,
    )
