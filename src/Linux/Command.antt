-- ===== src/Linux/Command.antt =====
-- src/linux.rs: the command line that the kernel is given, in the bytes of a `String`, which are
-- UTF-8.
pub mod Cut
use bang.Common.{
  ℕ, ◌+◌, ◌*◌, ◌/◌, ◌%◌, Bool, true, false, ◌&&◌, ◌||◌, not, Option, none, some, List, [], ◌∷◌,
  ◌++◌, ltb, leb, ◌==◌, if◌then◌else◌, length, take, get_or,
}
use bang.Common.Text.{Text}
use bang.Common.Text.Utf8.{utf8_bytes}

-- `is_char_boundary`, of an index within the string: not a continuation byte.
abbrev pub is_char_boundary : List ℕ → ℕ → Bool
is_char_boundary bytes n =
    let b = get_or bytes n 0 in n == 0 || n == length bytes || ltb b 0x80 || leb 0xc0 b

-- `cl`, for the `cmdline_size` of the header; `none` is the panic of `truncate`.
unfoldable pub command_line : ℕ → Text → Option (List ℕ)
unfolding utf8_bytes
command_line most cmdline =
    let bytes = utf8_bytes cmdline in
    if ltb 0 most && ltb most (length bytes)
    then (if is_char_boundary bytes most then some (take most bytes) else none)
    else some bytes
