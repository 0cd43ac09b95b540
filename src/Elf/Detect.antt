-- ===== src/Elf/Detect.antt =====
-- src/elf.rs: `detect_multiboot_version`.
pub mod Laws
use bang.Common.{
  ℕ, zero, suc, ◌+◌, ◌/◌, ◌%◌, ◌^◌, min, Bool, true, false, Option, none, some, ◌>>=◌, List, leb,
  ◌==◌, if◌then◌else◌, length,
}
use bang.Elf.{mb1_header_magic, mb2_header_magic, u32_at}

-- The body of the Multiboot2 loop: whether there is a header at `off`.
unfoldable pub mb2_at : List ℕ → ℕ → Option Bool
mb2_at buf off = do
  magic ← u32_at buf off
  let checked = (do
    arch ← u32_at buf (off + 4)
    hlen ← u32_at buf (off + 8)
    chksum ← u32_at buf (off + 12)
    some ((((magic + arch) % 2 ^ 32 + hlen) % 2 ^ 32 + chksum) % 2 ^ 32 == 0))
  if magic == mb2_header_magic then checked else some false

unfoldable pub mb1_at : List ℕ → ℕ → Option Bool
mb1_at buf off = do
  magic ← u32_at buf off
  let checked = (do
    flags ← u32_at buf (off + 4)
    chksum ← u32_at buf (off + 8)
    some (((magic + flags) % 2 ^ 32 + chksum) % 2 ^ 32 == 0))
  if magic == mb1_header_magic then checked else some false

-- `while off + window <= limit { if test(off) { return }; off += stride }` on fuel; the value says
-- whether the test passed, and `none` is a panic of the test or the end of the fuel.
unfoldable pub scan : ℕ → ℕ → ℕ → ℕ → (ℕ → Option Bool) → ℕ → Option Bool
scan zero stride window limit test off = none
scan (suc fuel) stride window limit test off =
    let rest = scan fuel stride window limit test (off + stride) in
    let body = (do found ← test off; if found then some true else rest) in
    if leb (off + window) limit then body else some false

abbrev pub mb2_limit : List ℕ → ℕ
mb2_limit buf = min (length buf) 32768

abbrev pub mb1_limit : List ℕ → ℕ
mb1_limit buf = min (length buf) 8192

unfoldable pub detect_multiboot_version : List ℕ → Option ℕ
detect_multiboot_version buf = do
  mb2 ← scan (suc (mb2_limit buf / 8)) 8 16 (mb2_limit buf) (mb2_at buf) 0
  let rest = (do
    mb1 ← scan (suc (mb1_limit buf / 4)) 4 12 (mb1_limit buf) (mb1_at buf) 0
    some (if mb1 then 1 else 0))
  if mb2 then some 2 else rest
