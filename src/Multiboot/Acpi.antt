-- ===== src/Multiboot/Acpi.antt =====
-- src/multiboot.rs: `find_rsdp`, over the firmware's configuration table and the memory.
pub mod Laws
use bang.Common.{
  ℕ, ◌+◌, ◌-◌, Bool, true, false, Option, none, some, ◌>>=◌, List, [], ◌∷◌, ◌++◌, Memory, read,
  from_le, ltb, leb, ◌==◌, if◌then◌else◌, replicate,
}
use bang.Common.Text.{codes, text_eq}
use bang.Multiboot.{Rsdp, rsdp_v1, rsdp_v2}

-- The identifiers of the `uefi` crate's `ConfigTableEntry` that are asked for, and the others.
pub data Guid : Type 0 where
  acpi2_guid acpi_guid : Guid
  other_guid : ℕ → Guid

pub record ConfigTableEntry : Type 0 where
  pub guid : Guid
  pub address : ℕ

abbrev pub is_acpi2 : Guid → Bool
is_acpi2 acpi2_guid = true
is_acpi2 acpi_guid = false
is_acpi2 (other_guid n) = false

abbrev pub is_acpi : Guid → Bool
is_acpi acpi2_guid = false
is_acpi acpi_guid = true
is_acpi (other_guid n) = false

-- `entries.iter().find(…).map(…)`
unfoldable pub find : (Guid → Bool) → List ConfigTableEntry → Option ℕ
find wanted [] = none
find wanted (e ∷ es) = let rest = find wanted es in if wanted e.guid then some e.address else rest

-- `find(ACPI2_GUID).or_else(|| find(ACPI_GUID))`
unfoldable pub rsdp_address : List ConfigTableEntry → Option ℕ
unfolding find
rsdp_address entries = elim (find is_acpi2 entries) [
  | none ↦ find is_acpi entries
  | some at ↦ some at
]

-- The length by the structure's revision and by what it says of itself.
unfoldable pub rsdp_length : ℕ → Memory → ℕ
rsdp_length at m =
    let said = from_le (read 4 (at + 20) m) in
    if leb 2 (m (at + 15)) then (if ltb said rsdp_v2 then rsdp_v1 else rsdp_v2) else rsdp_v1

-- The copy, in an array of zeros.
unfoldable pub copy_rsdp : ℕ → Memory → Option Rsdp
unfolding rsdp_length
copy_rsdp at m =
    let len = rsdp_length at m in
    if at == 0
    then none
    else if text_eq (read 8 at m) (codes "RSD PTR ")
    then some record { bytes = read len at m ++ replicate (rsdp_v2 - len) 0; len = len }
    else none

unfoldable pub find_rsdp : List ConfigTableEntry → Memory → Option Rsdp
unfolding rsdp_address copy_rsdp
find_rsdp entries m = rsdp_address entries >>= λ at. copy_rsdp at m
