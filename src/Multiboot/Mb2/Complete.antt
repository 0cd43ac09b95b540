-- ===== src/Multiboot/Mb2/Complete.antt =====
-- src/multiboot.rs, `build_mb2_info`: what is sent when there is room, and when the terminating tag
-- is left out.
use bang.Common.{
  ℕ, ◌+◌, ◌-◌, ◌≤◌, ◌≡◌, refl, sym, ap, subst, ◌∙◌, List, [], ◌∷◌, ◌++◌, map, Option, none, some,
  append_assoc, append-nil, arith, length, replicate, take_all, length-append, le→ltb,
}
use bang.Gop.{FbInfo}
use bang.Multiboot.{MemoryDescriptor, Rsdp, info_size, align8}
use bang.Multiboot.Mb2.Entries.{length-entries_bytes}
use bang.Multiboot.Mb2.Stages.{add_fits}
use bang.Multiboot.Mb2.Tags.{
  Tag, Named, tag_size, encode_tag, encode_tags, total_size, mmap, mmap_capacity, module_tag,
  framebuffer, acpi, end_tag, add, add_modules, add_framebuffer, add_acpi, sent_tags,
}

abbrev pub optional {ℓ} : {A : Type ℓ} → (A → Tag) → Option A → List Tag
optional f none = []
optional f (some a) = f a ∷ []

-- Everything that the builder was given, in the order of the tags.
abbrev pub full_body : List MemoryDescriptor → Option FbInfo → List Named → Option Rsdp → List Tag
full_body ds fb nms rsdp =
    mmap ds ∷ (map module_tag nms ++ (optional framebuffer fb ++ optional acpi rsdp))

encode_tags-append : (ts us : List Tag) → encode_tags (ts ++ us) ≡ encode_tags ts ++ encode_tags us
encode_tags-append [] us = refl
encode_tags-append (t ∷ ts) us =
    ap (◌++◌ (encode_tag t)) (encode_tags-append ts us)
    ∙ sym (append_assoc (encode_tag t) (encode_tags ts) (encode_tags us))

total_size-append :
    (ts us : List Tag) → total_size (ts ++ us) ≡ total_size ts + length (encode_tags us)
total_size-append ts us =
    omega
      (arith, ap length (encode_tags-append ts us), length-append (encode_tags ts) (encode_tags us))

pub tag_size-le : (t : Tag) (ts : List Tag) → tag_size t ≤ length (encode_tags (t ∷ ts))
tag_size-le t ts =
    let padding : List ℕ = replicate (align8 (tag_size t) - tag_size t) 0 in
    omega (
      arith,
      length-append t.payload padding,
      length-append (t.payload ++ padding) (encode_tags ts),
    )

add_modules_all :
    (nms : List Named) (ts : List Tag)
    → total_size (ts ++ map module_tag nms) ≤ info_size
    → add_modules nms ts ≡ ts ++ map module_tag nms
unfolding add_modules
add_modules_all [] ts h = sym (append-nil ts)
add_modules_all (nm ∷ nms) ts h =
    let room : total_size ts + tag_size (module_tag nm) ≤ info_size = omega (
      arith,
      total_size-append ts (map module_tag (nm ∷ nms)),
      tag_size-le (module_tag nm) (map module_tag nms),
    ) in
    let regroup = append_assoc ts (module_tag nm ∷ []) (map module_tag nms) in
    rw (le→ltb info_size (total_size ts + tag_size (module_tag nm)) room)
      (add_modules_all nms (ts ++ module_tag nm ∷ []) (rw regroup h) ∙ regroup)

-- A tag is sent where it and what follows it fit, with the eight bytes that are kept free.
add_all :
    (reserve : ℕ) (t : Tag) (ts more : List Tag)
    → reserve ≤ length (encode_tags more)
    → total_size (ts ++ (t ∷ [] ++ more)) ≤ info_size
    → add reserve t ts ≡ ts ++ t ∷ []
add_all reserve t ts more r h = add_fits reserve t ts (
    omega (
      arith,
      total_size-append ts (t ∷ more),
      tag_size-le t [],
      length-append (encode_tag t) (encode_tags more),
      length-append (encode_tag t) [],
    ))

add_framebuffer_all :
    (fb : Option FbInfo) (ts more : List Tag)
    → total_size (ts ++ (optional framebuffer fb ++ more)) ≤ info_size
    → add_framebuffer fb ts ≡ ts ++ optional framebuffer fb
add_framebuffer_all none ts more h = sym (append-nil ts)
add_framebuffer_all (some fb) ts more h = add_all 0 (framebuffer fb) ts more (omega arith) h

add_acpi_all :
    (rsdp : Option Rsdp) (ts : List Tag)
    → total_size (ts ++ (optional acpi rsdp ++ end_tag ∷ [])) ≤ info_size
    → add_acpi rsdp ts ≡ ts ++ optional acpi rsdp
add_acpi_all none ts h = sym (append-nil ts)
add_acpi_all (some r) ts h = add_all 8 (acpi r) ts (end_tag ∷ []) (omega arith) h

-- The four stages over lists that stay variables.
stages_all :
    (nms : List Named) (fb : Option FbInfo) (rsdp : Option Rsdp) (start ms fs rs : List Tag)
    → map module_tag nms ≡ ms
    → optional framebuffer fb ≡ fs
    → optional acpi rsdp ≡ rs
    → total_size (start ++ (ms ++ (fs ++ (rs ++ end_tag ∷ [])))) ≤ info_size
    → add 0 end_tag (add_acpi rsdp (add_framebuffer fb (add_modules nms start)))
      ≡ start ++ (ms ++ (fs ++ (rs ++ end_tag ∷ [])))
stages_all nms fb rsdp start ms fs rs em ef er h =
    let room : total_size (start ++ ms ++ (fs ++ (rs ++ end_tag ∷ []))) ≤ info_size =
      rw (append_assoc start ms (fs ++ (rs ++ end_tag ∷ []))) h in
    let room' : total_size (start ++ ms ++ fs ++ (rs ++ end_tag ∷ [])) ≤ info_size =
      rw (append_assoc (start ++ ms) fs (rs ++ end_tag ∷ [])) room in
    let room'' : total_size (start ++ ms ++ fs ++ rs ++ end_tag ∷ []) ≤ info_size =
      rw (append_assoc (start ++ ms ++ fs) rs (end_tag ∷ [])) room' in
    let front : total_size (start ++ ms) ≤ info_size =
      omega (arith, total_size-append (start ++ ms) (fs ++ (rs ++ end_tag ∷ []))) in
    let e1 : add_modules nms start ≡ start ++ ms =
      rw (← em) (add_modules_all nms start (rw em front)) in
    let e2 : add_framebuffer fb (start ++ ms) ≡ start ++ ms ++ fs =
      rw (← ef) (add_framebuffer_all fb (start ++ ms) (rs ++ end_tag ∷ []) (rw ef room)) in
    let e3 : add_acpi rsdp (start ++ ms ++ fs) ≡ start ++ ms ++ fs ++ rs =
      rw (← er) (add_acpi_all rsdp (start ++ ms ++ fs) (rw er room')) in
    let e4 : add 0 end_tag (start ++ ms ++ fs ++ rs) ≡ start ++ ms ++ fs ++ rs ++ end_tag ∷ [] =
      add_all 0 end_tag (start ++ ms ++ fs ++ rs) [] (omega arith) room'' in
    ap (λ t. add 0 end_tag (add_acpi rsdp (add_framebuffer fb t))) e1
    ∙ ap (λ t. add 0 end_tag (add_acpi rsdp t)) e2
    ∙ ap (add 0 end_tag) e3
    ∙ e4
    ∙ simp append_assoc

full_body-regroup :
    (ds : List MemoryDescriptor) (fb : Option FbInfo) (nms : List Named) (rsdp : Option Rsdp)
    → full_body ds fb nms rsdp ++ end_tag ∷ []
      ≡ mmap ds
        ∷ (map module_tag nms ++ (optional framebuffer fb ++ (optional acpi rsdp ++ end_tag ∷ [])))
full_body-regroup ds fb nms rsdp = ap (◌∷◌ (mmap ds)) (
    append_assoc (map module_tag nms) (optional framebuffer fb ++ optional acpi rsdp) (end_tag ∷ [])
    ∙ ap (◌++◌ (map module_tag nms))
        (append_assoc (optional framebuffer fb) (optional acpi rsdp) (end_tag ∷ [])))

-- Room for everything and the terminating tag: everything is sent, and terminated.
pub sent_tags_all :
    (ds : List MemoryDescriptor) (fb : Option FbInfo) (nms : List Named) (rsdp : Option Rsdp)
    → total_size (full_body ds fb nms rsdp ++ end_tag ∷ []) ≤ info_size
    → sent_tags ds fb nms rsdp ≡ full_body ds fb nms rsdp ++ end_tag ∷ []
unfolding sent_tags
sent_tags_all ds fb nms rsdp h =
    let regroup = full_body-regroup ds fb nms rsdp in
    let rest : List Tag =
      map module_tag nms ++ (optional framebuffer fb ++ (optional acpi rsdp ++ end_tag ∷ [])) in
    let room : total_size (mmap ds ∷ rest) ≤ info_size =
      subst (λ t. total_size t ≤ info_size) regroup h in
    let few : length ds ≤ mmap_capacity =
      omega (arith, room, tag_size-le (mmap ds) rest, length-entries_bytes ds) in
    rw (take_all mmap_capacity ds few) (
      stages_all nms fb rsdp (mmap ds ∷ []) (map module_tag nms) (optional framebuffer fb)
        (optional acpi rsdp) refl refl refl room
      ∙ sym regroup)
