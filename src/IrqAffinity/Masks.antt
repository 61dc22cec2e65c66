-- ===== src/IrqAffinity/Masks.antt =====
-- The mask of all processors.
use native.Mathlib.Nat.{div-eq_of_lt, pow-suc}
use betterconn.Prelude.{
  ℕ, zero, suc, ◌+◌, ◌-◌, ◌*◌, ◌/◌, ◌%◌, ◌^◌, ◌≤◌, ◌≡◌, refl, ap, ◌∙◌, true, false, [], ◌∷◌, Text,
  ltb, ◌==◌, if◌then◌else◌, arith, min, Bool-cases, inl, inr,
}

-- `mask |= 1UL << i`
unfoldable pub with_bit : ℕ → ℕ → ℕ
with_bit mask i = if (mask / 2 ^ i) % 2 == 1 then mask else mask + 2 ^ i

-- The loop from `i` on, with one unit of fuel for each processor that is left.
unfoldable pub mask_from : ℕ → ℕ → ℕ → ℕ
unfolding with_bit
mask_from zero i mask = mask
mask_from (suc left) i mask =
    let rest = mask_from left (suc i) (with_bit mask i) in if ltb i 63 then rest else mask

unfoldable pub all_cpus_mask : ℕ → ℕ
unfolding mask_from
all_cpus_mask cpu_count = mask_from cpu_count 0 0

abbrev hex_byte : ℕ → ℕ
hex_byte d = if ltb d 10 then b'0' + d else b'a' + (d - 10)

unfoldable pub hex_onto : ℕ → ℕ → Text → Text
hex_onto zero n out = out
hex_onto (suc fuel) n out = elim (ltb n 16) [
  | true ↦ hex_byte n ∷ out
  | false ↦ hex_onto fuel (n / 16) (hex_byte (n % 16) ∷ out)
]

-- `%lx` and `%x`
unfoldable pub to_hex : ℕ → Text
unfolding hex_onto
to_hex n = hex_onto (suc n) n []

unfoldable pub all_cpus_mask_hex : ℕ → Text
unfolding to_hex all_cpus_mask
all_cpus_mask_hex cpu_count = to_hex (all_cpus_mask cpu_count)

with_bit_lem : (mask i : ℕ) → mask + 1 ≡ 2 ^ i → with_bit mask i + 1 ≡ 2 ^ suc i
unfolding with_bit
with_bit_lem mask i e =
    let none_set : mask / 2 ^ i ≡ 0 = div-eq_of_lt (omega arith) in
    let doubled : 2 ^ suc i ≡ 2 ^ i * 2 = pow-suc 2 i in rw none_set (omega (arith, doubled))

mask_from_lem :
    (left i mask : ℕ)
    → i ≤ 63
    → mask + 1 ≡ 2 ^ i
    → mask_from left i mask + 1 ≡ 2 ^ min (i + left) 63
unfolding mask_from
mask_from_lem zero i mask h e = e ∙ ap (λ n. 2 ^ n) (omega arith)
mask_from_lem (suc left) i mask h e = elim (Bool-cases (ltb i 63)) [
  | inl more ↦
      rw (more, mask_from)
        (mask_from_lem left (suc i) (with_bit mask i) (ground arith) (with_bit_lem mask i e)
          ∙ ap (λ n. 2 ^ min n 63) (omega arith))
  | inr full ↦ rw (full, mask_from) (e ∙ ap (λ n. 2 ^ n) (ground arith))
]

-- The mask of `n` processors has its lowest `n` bits set and no others; above 63 processors, it
-- has its lowest 63.
pub all_cpus_mask_lem : (n : ℕ) → all_cpus_mask n + 1 ≡ 2 ^ min n 63
unfolding all_cpus_mask
all_cpus_mask_lem n = mask_from_lem n 0 0 (omega arith) refl ∙ ap (λ k. 2 ^ min k 63) (omega arith)
