-- ===== src/Tests/Elf.antt =====
-- Runs of the kernel's loader.
use bang.Common.{
  All, ℕ, ◌+◌, ◌*◌, ◌≤◌, ◌≡◌, refl, Bool, true, ◌&&◌, List, [], ◌∷◌, ◌++◌, Option, none, some,
  arith, ltb, leb, if◌then◌else◌, le_bytes, replicate,
}
use bang.Boot.{enter, trampoline, mb2_info, mb2_boot_magic}
use bang.Elf.{protected32, KernelInfo, u32_at}
use bang.Elf.Detect.{detect_multiboot_version, scan, mb2_at, mb1_at}
use bang.Elf.Detect.Laws.{HasVersion, detect_multiboot_version-HasVersion}
use bang.Elf.Kernel.{ok, panic, not_elf, load_kernel, load_class, load_segments}
use bang.Elf.Kernel.Image.{IsImage, HasRoom, segments, kernel_segments, load_kernel-IsImage}
use bang.Elf.Segment.{
  Loader, load_segment, claim_pages, run_pages, page_allocated, record_allocation, place,
  is_malformed,
}
use bang.Elf.Segment.Claim.{Firmware, IsRecorded}
use bang.Elf.Segment.Laws.{IsLoaded, load_segment-IsLoaded, load_segment_unclaimed}

-- A firmware that has given away what is below an address and never takes anything back.
abbrev pub give : ℕ → ℕ → ℕ → Option ℕ
give top page n =
    if leb top page && leb (page + n * 4096) 0x800_0000 then some (page + n * 4096) else none

give-eq :
    (top top' page n : ℕ) → give top page n ≡ some top' → (top ≤ page) × (top' ≡ page + n * 4096)
give-eq top top' page n h = ground arith

abbrev rising : Firmware
rising = record {
  S = ℕ;
  allocate = give;
  owned = λ top page. ltb page top;
  grants = λ top top' page n i h p. let g = give-eq top top' page n h in ground (arith, g);
  keeps = λ top top' page n q h o. let g = give-eq top top' page n h in ground (arith, g);
}

-- A kernel of one segment that starts in the middle of a page: 8 bytes of file, 5000 of memory.
abbrev program : List ℕ
program = 1 ∷ 2 ∷ 3 ∷ 4 ∷ 5 ∷ 6 ∷ 7 ∷ 8 ∷ []

abbrev multiboot2_header : List ℕ
multiboot2_header =
    le_bytes 4 0xe852_50d6 ++ (le_bytes 4 0 ++ (le_bytes 4 16 ++ le_bytes 4 0x17ad_af1a))

abbrev pub kernel_file : List ℕ
kernel_file =
    (0x7f ∷ b'E' ∷ b'L' ∷ b'F' ∷ 1 ∷ replicate 11 0)
    ++ (le_bytes 2 2
        ++ (le_bytes 2 3
            ++ (le_bytes 4 1
                ++ (le_bytes 4 0x10_0800
                    ++ (le_bytes 4 52
                        ++ (replicate 12 0
                            ++ (le_bytes 2 1
                                ++ (replicate 6 0
                                    ++ (le_bytes 4 1
                                        ++ (le_bytes 4 104
                                            ++ (le_bytes 4 0
                                                ++ (le_bytes 4 0x10_0800
                                                    ++ (le_bytes 4 8
                                                        ++ (le_bytes 4 5000
                                                            ++ (replicate 12 0
                                                            ++ (multiboot2_header
                                                            ++ program))))))))))))))))

abbrev pub fresh : Loader ℕ
fresh = record { records = []; firmware = 0x10_0000; mem = λ a. 0xcc }

abbrev pub loaded : Loader ℕ
loaded = record {
  records = (0x10_0000, 2) ∷ [];
  firmware = 0x10_2000;
  mem = place 0x10_0800 5000 kernel_file 104 8 fresh.mem;
}

abbrev pub kernel : KernelInfo
kernel = record { entry_point = 0x10_0800; mb_version = 2; boot_mode = protected32 }

pub load_kernel-kernel_file : load_kernel give kernel_file fresh ≡ ok (kernel, loaded)
unfolding load_kernel load_class load_segments load_segment claim_pages run_pages page_allocated
    record_allocation is_malformed detect_multiboot_version scan mb2_at mb1_at u32_at
load_kernel-kernel_file = refl

enter-kernel : enter kernel ≡ trampoline 0x10_0800 mb2_info mb2_boot_magic
unfolding enter
enter-kernel = refl

load_kernel_errors : (load_kernel give program fresh ≡ panic not_elf)
unfolding load_kernel
load_kernel_errors = refl

detect_multiboot_version-HasVersion_example :
    (v : ℕ) × (detect_multiboot_version kernel_file ≡ some v) × HasVersion kernel_file v
detect_multiboot_version-HasVersion_example = detect_multiboot_version-HasVersion kernel_file

fresh-IsRecorded : IsRecorded rising fresh
unfolding page_allocated
fresh-IsRecorded q aligned h = cc

load_segment-IsLoaded_example :
    (done : Bool) × (l' : Loader ℕ) × (load_segment give 0x10_0800 5000 kernel_file 104 8 fresh
      ≡ some (done, l'))
    × IsLoaded 0x10_0800 5000 kernel_file 104 8 rising fresh l' done
load_segment-IsLoaded_example =
    load_segment-IsLoaded 0x10_0800 5000 kernel_file 104 8 rising fresh (omega arith) (omega arith)
      (omega arith) (omega arith) fresh-IsRecorded

load_segment_unclaimed_example :
    load_segment give 0xffff_ffff_ffff_f000 16 program 0 8 fresh
    ≡ some (true, record fresh { mem = place 0xffff_ffff_ffff_f000 16 program 0 8 fresh.mem })
load_segment_unclaimed_example =
    load_segment_unclaimed 0xffff_ffff_ffff_f000 16 program 0 8 give fresh (omega arith)
      (omega arith) (omega arith) (omega arith) (omega arith)

pub kernel_file-HasRoom : All HasRoom (kernel_segments kernel_file)
unfolding segments
kernel_file-HasRoom = (omega arith, tt)

load_kernel-IsImage_example : IsImage rising kernel_file (kernel_segments kernel_file) fresh loaded
load_kernel-IsImage_example =
    load_kernel-IsImage rising kernel_file fresh loaded kernel (omega arith) kernel_file-HasRoom
      fresh-IsRecorded load_kernel-kernel_file
