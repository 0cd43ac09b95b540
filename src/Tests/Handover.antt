-- ===== src/Tests/Handover.antt =====
-- Runs of the Linux handover as a whole, and of its files and its command line.
use bang.Common.{
  ℕ, ◌+◌, ◌*◌, ◌≤◌, ◌≡◌, refl, ap, ◌∙◌, min, Option, none, some, List, [], ◌∷◌, ◌++◌, arith, ◌==◌,
  if◌then◌else◌, length, length-take, take, drop,
}
use bang.Common.Text.{Text, codes, text_eq}
use bang.Linux.{check, place_kernel, alloc_low}
use bang.Linux.Boot.{Booting, done, Handover, boot, boot_image, boot_command, load_initrd}
use bang.Common.Text.Utf8.{utf8, utf8_bytes}
use bang.Linux.Command.{command_line}
use bang.Linux.Command.Cut.{IsCut, command_line-IsCut}
use bang.Linux.Handed.{IsHandedOver}
use bang.Linux.Handed.Whole.{boot-IsHandedOver}
use bang.Linux.Reading.{Read, whole, unread, read_file, read_rest}
use bang.Linux.Reading.Whole.{IsRead, read_file-IsRead}
use bang.Uefi.{FixedMemory, FileReader}
use bang.Tests.Acpi.{falling, give_below}
use bang.Tests.Files.{take-drop, take_none}
use bang.Tests.Linux.{image}

abbrev pub give_at : ℕ → ℕ → ℕ → Option ℕ
give_at top page n = if page + n * 4096 == top then some page else none

abbrev pub pinned : FixedMemory falling
pinned = record {
  allocate = give_at;
  takes_at = λ top top' page n a h lo hi. ground arith;
  keeps_at = λ top top' page n a h o. ground arith;
}

abbrev files : Text → Read
files name =
    if text_eq name (codes "bzImage")
    then whole image
    else if text_eq name (codes "initrd")
    then whole (1 ∷ 2 ∷ 3 ∷ [])
    else unread

-- The call at the end, or one of a kernel that is nowhere.
handover_of : Booting (Handover ℕ) → Handover ℕ
handover_of (done h) = h
handover_of r = record { entry = 0; params = 0; memory = λ a. 0; firmware = 0 }

abbrev booted : Booting (Handover ℕ)
booted =
    boot give_at give_below files (codes "bzImage") (some (codes "initrd")) (codes "quiet") (λ a. 9)
      0x100_0000

booted-entry : (handover_of booted).entry ≡ 0xe0_0000 + 0x190 + 512
unfolding boot boot_image boot_command load_initrd command_line utf8_bytes utf8 check place_kernel
    alloc_low text_eq handover_of
booted-entry = refl

booted-done : booted ≡ done (handover_of booted)
unfolding boot boot_image boot_command load_initrd command_line utf8_bytes utf8 check place_kernel
    alloc_low text_eq handover_of
booted-done = refl

boot-IsHandedOver_example :
    (bytes : List ℕ) × (files (codes "bzImage") ≡ whole bytes)
    × IsHandedOver falling pinned files bytes
        (some (codes "initrd"))
        (codes "quiet")
        (handover_of booted)
boot-IsHandedOver_example =
    boot-IsHandedOver falling pinned files (codes "bzImage") (some (codes "initrd")) (codes "quiet")
      (λ a. 9) 0x100_0000 (handover_of booted) booted-done

-- A file that gives two bytes at a time.
abbrev read_two : List ℕ → ℕ → Option (List ℕ) × List ℕ
read_two f n = (some (take (min n 2) f), drop (min n 2) f)

some-inj : {a b : List ℕ} → some a ≡ some b → a ≡ b
some-inj e = cc

read_two-next :
    (f f' : List ℕ) (n : ℕ) (bs : List ℕ)
    → read_two f n ≡ (some bs, f')
    → (f ≡ bs ++ f') × (length bs ≤ n)
read_two-next f f' n bs h =
    let first : take (min n 2) f ≡ bs = some-inj (ap (λ r. r.0) h) in
    let rest : drop (min n 2) f ≡ f' = ap (λ r. r.1) h in
    let short = length-take (min n 2) f in
    (
      take-drop (min n 2) f ∙ ap (λ b. b ++ drop (min n 2) f) first ∙ ap (λ d. bs ++ d) rest,
      omega (arith, ap length first, short),
    )

abbrev in_pairs : FileReader
in_pairs = record {
  F = List ℕ;
  read_some = read_two;
  left = λ f. f;
  gives_next = read_two-next;
  gives_some = λ f f' n p h. take_none (min n 2) f (ground arith) (some-inj (ap (λ r. r.0) h));
}

abbrev opens_five : Text → Option (ℕ × List ℕ)
opens_five name = some (5, 1 ∷ 2 ∷ 3 ∷ 4 ∷ 5 ∷ [])

read_file-five : read_file read_two opens_five 6 [] ≡ whole (1 ∷ 2 ∷ 3 ∷ 4 ∷ 5 ∷ [])
unfolding read_file read_rest
read_file-five = refl

read_file-IsRead_example :
    IsRead in_pairs 5 (1 ∷ 2 ∷ 3 ∷ 4 ∷ 5 ∷ []) (read_file read_two opens_five 6 [])
read_file-IsRead_example =
    read_file-IsRead in_pairs opens_five 6 [] 5 (1 ∷ 2 ∷ 3 ∷ 4 ∷ 5 ∷ []) refl (omega arith)

-- Two bytes of room for a letter and an e with an acute accent.
command_line-accent : command_line 2 (0x61 ∷ 0xe9 ∷ []) ≡ none
unfolding command_line utf8_bytes utf8
command_line-accent = refl

command_line-IsCut_example : IsCut 2 (0x61 ∷ 0xe9 ∷ []) (command_line 2 (0x61 ∷ 0xe9 ∷ []))
command_line-IsCut_example = command_line-IsCut 2 (0x61 ∷ 0xe9 ∷ [])
