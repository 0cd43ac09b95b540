-- ===== src/Modules.antt =====
-- src/modules.rs: the boot modules and the buffer of their names. The buffer's address is `at`; a
-- name is the UCS-2 units of a directory entry, with their terminator.
pub mod Loading
pub mod Names
use bang.Common.{
  ℕ, zero, suc, ◌+◌, ◌-◌, ◌≤◌, Bool, true, false, ◌||◌, List, [], ◌∷◌, leb, ltb, ◌==◌,
  if◌then◌else◌, length, Memory, write,
}

pub record ModuleInfo : Type 0 where
  pub name_ptr : ℕ
  pub phys_start : ℕ
  pub size : ℕ

abbrev pub cap : ℕ
cap = 4096

-- `MOD_NAMES` within memory, and `MOD_NAMES_POS`.
pub record NameBuffer : Type 0 where
  pub mem : Memory
  pub pos : ℕ

-- `(*buf)[i] = b`
abbrev pub put : ℕ → ℕ → ℕ → Memory → Memory
put at i b = write (at + i) (b ∷ [])

-- A character in ASCII.
unfoldable pub to_ascii : ℕ → ℕ
to_ascii val = if ltb val 128 then val else b'?'

-- The loop: the characters up to the terminator, or as many as leave a byte for one. The number of
-- bytes written is returned.
unfoldable pub write_name : ℕ → ℕ → List ℕ → ℕ → Memory → ℕ × Memory
unfolding to_ascii
write_name at pos [] written m = (written, m)
write_name at pos (val ∷ name) written m =
    let rest = write_name at pos name (written + 1) (put at (pos + written) (to_ascii val) m) in
    if val == 0 || leb (cap - 1) (pos + written) then (written, m) else rest

-- The address of the stored name, and the buffer.
unfoldable pub store_name : ℕ → List ℕ → NameBuffer → ℕ × NameBuffer
unfolding write_name
store_name at name b =
    let (written, m) = write_name at b.pos name 0 b.mem in
    let stored : NameBuffer = record {
      mem = put at (b.pos + written) 0 m;
      pos = b.pos + written + 1;
    } in
    if leb cap b.pos then (at + (cap - 1), b) else (at + b.pos, stored)
