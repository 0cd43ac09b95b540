-- ===== src/Tests/Acpi.antt =====
-- Runs of the search for the ACPI root pointer, and of the region set aside for the builder.
use bang.Common.{
  ℕ, ◌+◌, ◌-◌, ◌*◌, ◌≡◌, refl, Option, none, some, List, [], ◌∷◌, ◌++◌, arith, Memory, read, write,
  le_bytes, replicate, if◌then◌else◌, leb,
}
use bang.Common.Text.{codes, text_eq}
use bang.Multiboot.{Rsdp}
use bang.Multiboot.Acpi.{
  ConfigTableEntry, acpi2_guid, acpi_guid, other_guid, find, rsdp_address, rsdp_length, copy_rsdp,
  find_rsdp,
}
use bang.Multiboot.Acpi.Laws.{IsCopy, IsRoot, find_rsdp-IsCopy}
use bang.Multiboot.Mb2.Tags.{acpi}
use bang.Multiboot.Reserve.{reserve}
use bang.Uefi.{LowMemory}

abbrev pub table : List ConfigTableEntry
table =
    record { guid = other_guid 5; address = 1 }
    ∷ record { guid = acpi_guid; address = 0x6000 }
    ∷ record { guid = acpi2_guid; address = 0x7000 }
    ∷ []

abbrev firmware_memory : Memory
firmware_memory =
    write 0x7000 (codes "RSD PTR " ++ (replicate 7 3 ++ (2 ∷ (replicate 4 0 ++ le_bytes 4 36))))
      (λ a. 9)

abbrev found : Rsdp
found = record { bytes = read 36 0x7000 firmware_memory; len = 36 }

find_rsdp-table : find_rsdp table firmware_memory ≡ some found
unfolding find_rsdp rsdp_address find copy_rsdp rsdp_length text_eq write
find_rsdp-table = refl

find_rsdp-IsCopy_example :
    (at : ℕ) × IsRoot at table
    × IsCopy at firmware_memory found
    × ((acpi found).payload ≡ read 36 at firmware_memory)
find_rsdp-IsCopy_example = find_rsdp-IsCopy table firmware_memory found find_rsdp-table

-- Gives pages from the limit downwards.
abbrev pub give_below : ℕ → ℕ → ℕ → Option (ℕ × ℕ)
give_below limit top n =
    if leb (n * 4096) top
    then (if leb top (limit + 1) then some (top - n * 4096, top - n * 4096) else none)
    else none

pub give_below-eq :
    (limit top top' n at : ℕ)
    → give_below limit top n ≡ some (at, top')
    → (top' ≡ at) × (at + n * 4096 ≡ top)
give_below-eq limit top top' n at h = ground arith

abbrev pub falling : LowMemory
falling = record {
  S = ℕ;
  owned = λ top a. leb top a;
  allocate_below = give_below;
  ends_below = λ limit top top' n at h. ground arith;
  fresh = λ limit top top' n at a h lo hi.
      let e = give_below-eq limit top top' n at h in ground (arith, e);
  takes = λ limit top top' n at a h lo hi.
      let e = give_below-eq limit top top' n at h in ground (arith, e);
  keeps_owned =
      λ limit top top' n at a h o. let e = give_below-eq limit top top' n at h in ground (arith, e);
}

pub reserve-falling : reserve give_below 0x10_4000 ≡ some (0x10_0000, 0x10_0000)
unfolding reserve
reserve-falling = refl
