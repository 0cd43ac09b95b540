-- ===== src/Multiboot/Mb2/Tags.antt =====
-- Multiboot2 boot information as a list of tags, and the tags that `build_mb2_info` sends: the
-- abstract view of src/multiboot.rs.
use bang.Common.{
  ℕ, ◌+◌, ◌-◌, ◌%◌, ◌^◌, List, [], ◌∷◌, ◌++◌, Option, none, some, ltb, leb, ◌==◌, if◌then◌else◌,
  le_bytes, length, take, replicate,
}
use bang.Gop.{FbInfo}
use bang.Modules.{ModuleInfo}
use bang.Multiboot.{
  MemoryDescriptor, Rsdp, rsdp_v2, info_size, efi_memtype_to_mb, byte_length, align8,
}

pub record Tag : Type 0 where
  pub kind : ℕ
  pub payload : List ℕ

-- The size that a tag states: its two header words and its payload.
abbrev pub tag_size : Tag → ℕ
tag_size t = 8 + length t.payload

-- A tag's bytes, with zeros up to the next multiple of eight.
abbrev pub encode_tag : Tag → List ℕ
encode_tag t =
    le_bytes 4 t.kind
    ++ (le_bytes 4 (tag_size t) ++ (t.payload ++ replicate (align8 (tag_size t) - tag_size t) 0))

abbrev pub encode_tags : List Tag → List ℕ
encode_tags [] = []
encode_tags (t ∷ ts) = encode_tag t ++ encode_tags ts

-- The header's eight bytes and the tags'.
abbrev pub total_size : List Tag → ℕ
total_size ts = 8 + length (encode_tags ts)

abbrev pub encode_info : List Tag → List ℕ
encode_info ts = le_bytes 4 (total_size ts) ++ (le_bytes 4 0 ++ encode_tags ts)

abbrev pub entry_bytes : MemoryDescriptor → List ℕ
entry_bytes d =
    le_bytes 8 d.phys_start
    ++ (le_bytes 8 (byte_length d) ++ (le_bytes 4 (efi_memtype_to_mb d.ty) ++ le_bytes 4 0))

abbrev pub entries_bytes : List MemoryDescriptor → List ℕ
entries_bytes [] = []
entries_bytes (d ∷ ds) = entry_bytes d ++ entries_bytes ds

abbrev pub mmap : List MemoryDescriptor → Tag
mmap ds = record { kind = 6; payload = le_bytes 4 24 ++ (le_bytes 4 0 ++ entries_bytes ds) }

-- A module with the name that stands at its `name_ptr`.
pub record Named : Type 0 where
  pub info : ModuleInfo
  pub name : List ℕ

abbrev pub module_tag : Named → Tag
module_tag nm = record {
  kind = 3;
  payload =
      le_bytes 4 nm.info.phys_start
      ++ (le_bytes 4 ((nm.info.phys_start + nm.info.size) % 2 ^ 64) ++ (nm.name ++ 0 ∷ []));
}

abbrev pub framebuffer : FbInfo → Tag
framebuffer fb = record {
  kind = 8;
  payload =
      le_bytes 8 fb.addr
      ++ (le_bytes 4 fb.pitch
          ++ (le_bytes 4 fb.width
              ++ (le_bytes 4 fb.height
                  ++ (le_bytes 1 fb.bpp
                      ++ (le_bytes 1 fb.fb_type
                          ++ (le_bytes 1 0
                              ++ (le_bytes 1 fb.red_pos
                                  ++ (le_bytes 1 fb.red_size
                                      ++ (le_bytes 1 fb.green_pos
                                          ++ (le_bytes 1 fb.green_size
                                              ++ (le_bytes 1 fb.blue_pos
                                                  ++ le_bytes 1 fb.blue_size)))))))))));
}

abbrev pub acpi : Rsdp → Tag
acpi r = record { kind = if r.len == rsdp_v2 then 15 else 14; payload = take r.len r.bytes }

abbrev pub end_tag : Tag
end_tag = record { kind = 0; payload = [] }

-- The memory map entries that the region has room for.
abbrev pub mmap_capacity : ℕ
mmap_capacity = 681

-- A tag is sent if it ends `reserve` bytes before the end of the region.
abbrev pub add : ℕ → Tag → List Tag → List Tag
add reserve t ts = if leb (total_size ts + tag_size t + reserve) info_size then ts ++ t ∷ [] else ts

-- Modules are sent up to the first that does not fit.
unfoldable pub add_modules : List Named → List Tag → List Tag
add_modules [] ts = ts
add_modules (nm ∷ nms) ts =
    let rest = add_modules nms (ts ++ module_tag nm ∷ []) in
    if ltb info_size (total_size ts + tag_size (module_tag nm)) then ts else rest

abbrev pub add_framebuffer : Option FbInfo → List Tag → List Tag
add_framebuffer none ts = ts
add_framebuffer (some fb) ts = add 0 (framebuffer fb) ts

abbrev pub add_acpi : Option Rsdp → List Tag → List Tag
add_acpi none ts = ts
add_acpi (some r) ts = add 8 (acpi r) ts

-- The tags of `build_mb2_info` before the terminating one.
unfoldable pub body_tags :
    List MemoryDescriptor → Option FbInfo → List Named → Option Rsdp → List Tag
unfolding add_modules
body_tags ds fb nms rsdp =
    add_acpi rsdp (add_framebuffer fb (add_modules nms (mmap (take mmap_capacity ds) ∷ [])))

unfoldable pub sent_tags :
    List MemoryDescriptor → Option FbInfo → List Named → Option Rsdp → List Tag
unfolding body_tags
sent_tags ds fb nms rsdp = add 0 end_tag (body_tags ds fb nms rsdp)
