-- ===== src/Uefi/Pages.antt =====
-- Pages that the firmware gives are apart from all that is in use.
use bang.Common.{
  arith, ℕ, ◌+◌, ◌*◌, ◌≤◌, ◌<◌, ◌≡◌, ◌⊎◌, inl, inr, true, some, ltb, ltb→lt, ltb→le, Bool-cases,
}
use bang.Uefi.{LowMemory}

pub owned_outside :
    (low : LowMemory) (limit : ℕ) (s s' : low.S) (n at a : ℕ)
    → low.allocate_below limit s n ≡ some (at, s')
    → low.owned s a ≡ true
    → (a < at) ⊎ (at + n * 4096 ≤ a)
owned_outside low limit s s' n at a given o = elim (Bool-cases (ltb a at)) [
  | inl before ↦ inl (ltb→lt _ _ before)
  | inr from_on ↦ elim (Bool-cases (ltb a (at + n * 4096))) [
    | inr behind ↦ inr (ltb→le _ _ behind)
    | inl inside ↦
        cc (low.fresh limit s s' n at a given (ltb→le _ _ from_on) (ltb→lt _ _ inside), o)
  ]
]

-- Bytes that were outside new pages, the other way round.
pub outside_swap :
    (p n q k : ℕ)
    → ((a : ℕ) → p ≤ a → a < p + n → (a < q) ⊎ (q + k ≤ a))
    → (a : ℕ) → q ≤ a
    → a < q + k
    → (a < p) ⊎ (p + n ≤ a)
outside_swap p n q k h a lo hi = elim (Bool-cases (ltb a p)) [
  | inl before ↦ inl (ltb→lt _ _ before)
  | inr from_on ↦ elim (Bool-cases (ltb a (p + n))) [
    | inr behind ↦ inr (ltb→le _ _ behind)
    | inl inside ↦
        let out = h a (ltb→le _ _ from_on) (ltb→lt _ _ inside) in absurd (omega (arith, out))
  ]
]
