-- ===== src/Boot/Handoff.antt =====
-- src/main.rs: how each kernel that `load_kernel` accepts is entered.
use bang.Common.{ℕ, ◌%◌, ◌^◌, ◌≡◌, ◌≢◌, refl, ap, ◌∙◌, inl, inr, arith, Option, List}
use bang.Elf.{BootMode, protected32, long64, KernelInfo, word}
use bang.Elf.Detect.Laws.{HasVersion, two, one, neither}
use bang.Elf.Segment.{Loader}
use bang.Elf.Kernel.{ok, load_kernel}
use bang.Elf.Kernel.Laws.{IsKernel, load_kernel-IsKernel}
use bang.Boot.{
  mb1_info, mb2_info, no_info, Jump, trampoline, handoff, mb1_boot_magic, mb2_boot_magic, enter_in,
  enter,
}

-- The way a kernel is entered, by the Multiboot version of its file and, with no Multiboot header,
-- by its class.
pub data IsEntered (buf : List ℕ) (k : KernelInfo) : Jump → Type 0 where
  as_mb1 :
      HasVersion buf 1
      → IsEntered buf k (trampoline (k.entry_point % 2 ^ 32) mb1_info mb1_boot_magic)
  as_mb2 :
      HasVersion buf 2
      → IsEntered buf k (trampoline (k.entry_point % 2 ^ 32) mb2_info mb2_boot_magic)
  as_elf32 :
      HasVersion buf 0
      → word 1 buf 4 ≡ 1
      → IsEntered buf k (trampoline (k.entry_point % 2 ^ 32) mb2_info mb2_boot_magic)
  as_elf64 : HasVersion buf 0 → word 1 buf 4 ≡ 2 → IsEntered buf k (handoff k.entry_point no_info)

enter_protected : (k : KernelInfo) → k.boot_mode ≢ long64 → enter k ≡ enter_in protected32 k
unfolding enter
enter_protected k h = by_mode k.boot_mode h
  where
    by_mode : (m : BootMode) → m ≢ long64 → enter_in m k ≡ enter_in protected32 k
    by_mode protected32 h = refl
    by_mode long64 h = absurd (h refl)

IsEntered-congr :
    {buf : List ℕ} (k : KernelInfo) (j : Jump)
    → enter k ≡ j
    → IsEntered buf k j
    → IsEntered buf k (enter k)
IsEntered-congr k j e h = rw e h

enter_known :
    (buf : List ℕ) (k : KernelInfo)
    → IsKernel buf k
    → HasVersion buf k.mb_version
    → IsEntered buf k (enter k)
unfolding enter enter_in
enter_known buf k known (two off h v) =
    IsEntered-congr k _ (enter_protected k (λ e. ground (arith, known.mode.0 e, v)) ∙ rw v refl)
      (as_mb2 (two off h refl))
enter_known buf k known (one off no_mb2 h v) =
    IsEntered-congr k _ (enter_protected k (λ e. ground (arith, known.mode.0 e, v)) ∙ rw v refl)
      (as_mb1 (one off no_mb2 h refl))
enter_known buf k known (neither no_mb2 no_mb1 v) = elim known.headers [
  | inl (class32, _, _) ↦
      IsEntered-congr k _
        (enter_protected k (λ e. ground (arith, known.mode.0 e, class32)) ∙ rw v refl)
        (as_elf32 (neither no_mb2 no_mb1 refl) class32)
  | inr (class64, _, _) ↦
      IsEntered-congr k _ (ap (λ m. enter_in m k) (known.mode.1 (class64, v)) ∙ rw v refl)
        (as_elf64 (neither no_mb2 no_mb1 refl) class64)
]

-- Every kernel that is loaded is entered in the way of its Multiboot version: through the
-- trampoline with that version's builder and magic if there is a version; with none, a file of
-- class 64 is entered in long mode with no information at all, and a file of class 32 is given
-- Multiboot 2 information and the Multiboot 2 magic, as if it had asked for them.
pub enter-IsEntered :
    {S : Type 0} (allocate : S → ℕ → ℕ → Option S) (buf : List ℕ) (l : Loader S) (k : KernelInfo)
    (l' : Loader S)
    → load_kernel allocate buf l ≡ ok (k, l')
    → IsEntered buf k (enter k)
unfolding enter enter_in
enter-IsEntered allocate buf l k l' e =
    let known = load_kernel-IsKernel allocate buf l k l' e in enter_known buf k known known.version
