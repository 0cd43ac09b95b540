-- ===== src/Gop.antt =====
-- src/gop.rs: the framebuffer that the firmware reports, as the Multiboot2 builder takes it.
use bang.Common.{ℕ, ◌*◌, ◌/◌, ◌%◌, ◌^◌, Option, none, some}

pub record FbInfo : Type 0 where
  pub addr : ℕ
  pub pitch : ℕ
  pub width : ℕ
  pub height : ℕ
  pub bpp : ℕ
  pub fb_type : ℕ
  pub red_pos : ℕ
  pub red_size : ℕ
  pub green_pos : ℕ
  pub green_size : ℕ
  pub blue_pos : ℕ
  pub blue_size : ℕ

-- `PixelFormat` of the `uefi` crate.
pub data PixelFormat : Type 0 where
  rgb bgr bitmask blt_only : PixelFormat

-- What the open protocol answers: `resolution`, `pixel_format`, `stride` and `frame_buffer`.
pub record Mode : Type 0 where
  pub width : ℕ
  pub height : ℕ
  pub format : PixelFormat
  pub stride : ℕ
  pub fb_base : ℕ

abbrev framebuffer : Mode → ℕ → ℕ → FbInfo
framebuffer mode red blue = record {
  addr = mode.fb_base;
  pitch = mode.stride % 2 ^ 32 * (32 / 8) % 2 ^ 32;
  width = mode.width % 2 ^ 32;
  height = mode.height % 2 ^ 32;
  bpp = 32;
  fb_type = 1;
  red_pos = red;
  red_size = 8;
  green_pos = 8;
  green_size = 8;
  blue_pos = blue;
  blue_size = 8;
}

by_format : PixelFormat → Mode → Option FbInfo
by_format blt_only mode = none
by_format rgb mode = some (framebuffer mode 0 16)
by_format bgr mode = some (framebuffer mode 16 0)
by_format bitmask mode = some (framebuffer mode 0 16)

-- `none` in is a protocol that could not be found or opened.
unfoldable pub query_gop : Option Mode → Option FbInfo
unfolding by_format
query_gop none = none
query_gop (some mode) = by_format mode.format mode
