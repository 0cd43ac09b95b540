-- ===== src/Multiboot/Acpi/Laws.antt =====
-- src/multiboot.rs: what `find_rsdp` finds, and that a kernel is handed the same bytes.
use bang.Common.{
  ℕ, ◌+◌, ◌-◌, ◌≤◌, ◌<◌, subst, ◌≡◌, ◌≢◌, refl, sym, ap, ◌∙◌, ◌⊎◌, inl, inr, Bool, true, false,
  none, some, List, [], ◌∷◌, All, ◌++◌, arith, Memory, read, from_le, ◌==◌, length, take, replicate,
  length-read, take-append, Bool-cases, Option-cases,
}
use bang.Common.Text.{codes, text_eq, text_eq_iff}
use bang.Multiboot.{Rsdp, rsdp_v1, rsdp_v2}
use bang.Multiboot.Mb2.Stages.{HasBytes}
use bang.Multiboot.Mb2.Tags.{acpi}
use bang.Multiboot.Acpi.{
  Guid, acpi2_guid, acpi_guid, other_guid, is_acpi2, is_acpi, find, ConfigTableEntry, rsdp_address,
  rsdp_length, copy_rsdp, find_rsdp,
}

-- The root pointer found is a copy of the structure at `at`.
pub record IsCopy (at : ℕ) (m : Memory) (r : Rsdp) : Type 0 where
  pub present : at ≢ 0
  pub signed : read 8 at m ≡ codes "RSD PTR "
  pub revision :
      ((r.len ≡ rsdp_v2) × (2 ≤ m (at + 15)) × (rsdp_v2 ≤ from_le (read 4 (at + 20) m)))
      ⊎ ((r.len ≡ rsdp_v1) × ((m (at + 15) < 2) ⊎ (from_le (read 4 (at + 20) m) < rsdp_v2)))
  pub bytes : take r.len r.bytes ≡ read r.len at m
  pub has_bytes : HasBytes (some r)

rsdp_length-cases :
    (at : ℕ) (m : Memory)
    → ((rsdp_length at m ≡ rsdp_v2) × (2 ≤ m (at + 15)) × (rsdp_v2 ≤ from_le (read 4 (at + 20) m)))
      ⊎ ((rsdp_length at m ≡ rsdp_v1)
          × ((m (at + 15) < 2) ⊎ (from_le (read 4 (at + 20) m) < rsdp_v2)))
unfolding rsdp_length
rsdp_length-cases at m = ground arith

take-read : (n k at : ℕ) (m : Memory) → take n (read n at m ++ replicate k 0) ≡ read n at m
take-read n k at m =
    ap (λ i. take i (read n at m ++ replicate k 0)) (sym (length-read n at m))
    ∙ take-append (read n at m) (replicate k 0)

copy_rsdp-IsCopy : (at : ℕ) (m : Memory) (r : Rsdp) → copy_rsdp at m ≡ some r → IsCopy at m r
unfolding copy_rsdp
copy_rsdp-IsCopy at m r e = elim (Bool-cases (at == 0)) [
  | inl null ↦ cc (rw null at e)
  | inr present ↦ elim (Bool-cases (text_eq (read 8 at m) (codes "RSD PTR "))) [
    | inr unsigned ↦ cc (rw (present, unsigned) at e)
    | inl signed ↦
        let len = rsdp_length at m in
        let copy : Rsdp = record {
          bytes = read len at m ++ replicate (rsdp_v2 - len) 0;
          len = len;
        } in
        let found : copy ≡ r = cc (rw (present, signed) at e) in
        subst (IsCopy at m) found record {
          present = ground arith;
          signed = (text_eq_iff (read 8 at m) (codes "RSD PTR ")).0 signed;
          revision = rsdp_length-cases at m;
          bytes = take-read len (rsdp_v2 - len) at m;
          has_bytes = ap length (take-read len (rsdp_v2 - len) at m) ∙ length-read len at m;
        }
  ]
]

-- The entry at `at` is the first of its identifier in the table.
pub record IsFirst (guid : Guid) (at : ℕ) (entries : List ConfigTableEntry) : Type 0 where
  pub before : List ConfigTableEntry
  pub entry : ConfigTableEntry
  pub behind : List ConfigTableEntry
  pub table : entries ≡ before ++ entry ∷ behind
  pub none_before : All (λ e. e.guid ≢ guid) before
  pub identifier : entry.guid ≡ guid
  pub address : entry.address ≡ at

-- The first ACPI 2 entry, or the first ACPI 1 entry of a table without any of ACPI 2.
pub data IsRoot (at : ℕ) (entries : List ConfigTableEntry) : Type 0 where
  by_acpi2 : IsFirst acpi2_guid at entries → IsRoot at entries
  by_acpi :
      All (λ e. e.guid ≢ acpi2_guid) entries → IsFirst acpi_guid at entries → IsRoot at entries

IsFirst-here :
    (guid : Guid) (e : ConfigTableEntry) (es : List ConfigTableEntry)
    → e.guid ≡ guid
    → IsFirst guid e.address (e ∷ es)
IsFirst-here guid e es same = record {
  before = [];
  entry = e;
  behind = es;
  table = refl;
  none_before = tt;
  identifier = same;
  address = refl;
}

IsFirst-cons :
    (guid : Guid) (at : ℕ) (e : ConfigTableEntry) (es : List ConfigTableEntry)
    → e.guid ≢ guid
    → IsFirst guid at es
    → IsFirst guid at (e ∷ es)
IsFirst-cons guid at e es other f = record {
  before = e ∷ f.before;
  entry = f.entry;
  behind = f.behind;
  table = ap (◌∷◌ e) f.table;
  none_before = (other, f.none_before);
  identifier = f.identifier;
  address = f.address;
}

module _ (wanted : Guid → Bool) (guid : Guid)
    (decides : (g : Guid)
      → ((wanted g ≡ true) × (g ≡ guid)) ⊎ ((wanted g ≡ false) × (g ≢ guid))) where
  find-IsFirst :
      (es : List ConfigTableEntry) (at : ℕ) → find wanted es ≡ some at → IsFirst guid at es
  unfolding find
  find-IsFirst [] at h = cc
  find-IsFirst (e ∷ es) at h = elim (decides e.guid) [
    | inl (is_it, same) ↦
        let here : e.address ≡ at = cc (rw is_it at h) in
        subst (λ a. IsFirst guid a (e ∷ es)) here (IsFirst-here guid e es same)
    | inr (is_not, other) ↦ IsFirst-cons guid at e es other (find-IsFirst es at (rw is_not at h))
  ]

  find-none : (es : List ConfigTableEntry) → find wanted es ≡ none → All (λ e. e.guid ≢ guid) es
  unfolding find
  find-none [] h = tt
  find-none (e ∷ es) h = elim (decides e.guid) [
    | inl (is_it, same) ↦ cc (rw is_it at h)
    | inr (is_not, other) ↦ (other, find-none es (rw is_not at h))
  ]

is_acpi2-decides :
    (g : Guid)
    → ((is_acpi2 g ≡ true) × (g ≡ acpi2_guid)) ⊎ ((is_acpi2 g ≡ false) × (g ≢ acpi2_guid))
is_acpi2-decides acpi2_guid = inl (refl, refl)
is_acpi2-decides acpi_guid = inr (refl, λ e. cc)
is_acpi2-decides (other_guid n) = inr (refl, λ e. cc)

is_acpi-decides :
    (g : Guid) → ((is_acpi g ≡ true) × (g ≡ acpi_guid)) ⊎ ((is_acpi g ≡ false) × (g ≢ acpi_guid))
is_acpi-decides acpi2_guid = inr (refl, λ e. cc)
is_acpi-decides acpi_guid = inl (refl, refl)
is_acpi-decides (other_guid n) = inr (refl, λ e. cc)

rsdp_address-IsRoot :
    (entries : List ConfigTableEntry) (at : ℕ) → rsdp_address entries ≡ some at → IsRoot at entries
unfolding rsdp_address
rsdp_address-IsRoot entries at h = elim (Option-cases (find is_acpi2 entries)) [
  | inl missing ↦
      by_acpi (find-none is_acpi2 acpi2_guid is_acpi2-decides entries missing) (
        find-IsFirst is_acpi acpi_guid is_acpi-decides entries at (rw (missing, rsdp_address) at h))
  | inr (at', there) ↦
      let same : at' ≡ at = cc (rw (there, rsdp_address) at h) in
      by_acpi2 (find-IsFirst is_acpi2 acpi2_guid is_acpi2-decides entries at (there ∙ ap some same))
]

-- Whatever the configuration table and the memory: what is found is a copy of the structure at the
-- address of the first ACPI 2 entry, or of the first ACPI 1 entry if there is no ACPI 2 entry; it is
-- signed; it is taken to have 36 bytes exactly if its revision and its own length say so, else 20;
-- and the payload of the kernel's tag is those bytes of the firmware's.
pub find_rsdp-IsCopy :
    (entries : List ConfigTableEntry) (m : Memory) (r : Rsdp)
    → find_rsdp entries m ≡ some r
    → (at : ℕ) × IsRoot at entries × IsCopy at m r × ((acpi r).payload ≡ read r.len at m)
unfolding find_rsdp
find_rsdp-IsCopy entries m r e = elim (Option-cases (rsdp_address entries)) [
  | inl nowhere ↦ cc (rw nowhere at e)
  | inr (at, there) ↦
      let copy = copy_rsdp-IsCopy at m r (rw there at e) in
      (at, rsdp_address-IsRoot entries at there, copy, copy.bytes)
]
