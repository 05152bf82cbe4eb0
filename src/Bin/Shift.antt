-- ===== src/Bin/Shift.antt =====
-- `layer_shifted`: the bin in a tree whose base bins stand for `2 ^ zlayer` of the old ones.
use native.Mathlib.Nat.{div-add-mod', le-mul_of_pos_right, mul-le-mul_right}
use libswift.Base.{
  ℕ, suc, ◌+◌, ◌-◌, ◌*◌, ◌/◌, ◌%◌, ◌^◌, ◌≤◌, ◌<◌, ◌≡◌, ◌≢◌, ap, ◌∙◌, arith, ==-eq_false,
}
use libswift.Bits.Fields.{pow_double, pow_pos, mul_pow_double, div_fields}
use libswift.Bits.Tail.{pow_add}
use libswift.Bin.{layer_shifted}
use libswift.Bin.Layout.{node, InTree, node-lt, twice-le, layer_bits-node}
use libswift.Bin.Family.{and_evens}

-- `v / 2 ^ z` of a bin at layer `d + z`, and of its layer bits.
node_shift : (d z o : ℕ) → node (d + z) o / 2 ^ z ≡ node d o
node_shift d z o =
    let split : node (d + z) o ≡ node d o * 2 ^ z + (2 ^ z - 1) =
      (let low : 2 ^ d ≡ 2 ^ d - 1 + 1 = omega (arith, pow_pos d) in
        omega (
          arith,
          pow_add d z,
          pow_pos d,
          pow_pos z,
          mul_pow_double o (d + z),
          mul_pow_double o d,
          ap (λ (x : ℕ). o * x) (pow_add d z),
          ap (λ (x : ℕ). x * 2 ^ z) low,
          ap (λ (x : ℕ). x * 2 ^ z) (mul_pow_double o d),
        )) in
    ap (λ (x : ℕ). x / 2 ^ z) split
    ∙ div_fields (2 ^ z) (node d o) (2 ^ z - 1) (omega (arith, pow_pos z))

bits_shift : (d z : ℕ) → (2 ^ suc (d + z) - 1) / 2 ^ z ≡ 2 ^ suc d - 1
bits_shift d z =
    let split : 2 ^ suc (d + z) - 1 ≡ (2 ^ suc d - 1) * 2 ^ z + (2 ^ z - 1) =
      (let low : 2 ^ suc d ≡ 2 ^ suc d - 1 + 1 = omega (arith, pow_pos (suc d)) in
        omega (
          arith,
          pow_add d z,
          pow_pos z,
          pow_double d,
          pow_double (d + z),
          ap (λ (x : ℕ). x * 2 ^ z) low,
          ap (λ (x : ℕ). x * 2 ^ z) (pow_double d),
        )) in
    ap (λ (x : ℕ). x / 2 ^ z) split
    ∙ div_fields (2 ^ z) (2 ^ suc d - 1) (2 ^ z - 1) (omega (arith, pow_pos z))

-- A bin that is not below the new base layer comes down `z` layers, at the same offset.
pub layer_shifted-node :
    (d z o : ℕ) → InTree (d + z) o → layer_shifted (node (d + z) o) z ≡ node d o
unfolding layer_shifted
layer_shifted-node d z o t =
    let high : 2 ^ suc d - 1 ≢ 0 = omega (arith, pow_double d, pow_pos d) in
    rw (layer_bits-node (d + z) o t, bits_shift d z, ==-eq_false _ 0 high) (node_shift d z o)

-- A bin below it becomes the base bin that covers it.
pub layer_shifted-small :
    (d l o : ℕ) → InTree l o → layer_shifted (node l o) (suc d + l) ≡ node 0 (o / 2 ^ d / 2)
unfolding layer_shifted
layer_shifted-small d l o t =
    let z = suc d + l in
    let wide : 2 ^ z ≡ 2 ^ d * 2 ^ suc l =
      (let e : z ≡ d + suc l = omega arith in ap (λ (k : ℕ). 2 ^ k) e ∙ pow_add d (suc l)) in
    let bits : 2 ^ suc l - 1 ≡ 0 * 2 ^ z + (2 ^ suc l - 1) = omega arith in
    let gone : (2 ^ suc l - 1) / 2 ^ z ≡ 0 =
      ap (λ (x : ℕ). x / 2 ^ z) bits
      ∙ div_fields (2 ^ z) 0 (2 ^ suc l - 1)
          (omega (arith, wide, pow_pos (suc l), mul-le-mul_right (2 ^ suc l) (pow_pos d))) in
    let split : node l o ≡ o / 2 ^ d * 2 ^ z + (o % 2 ^ d * 2 ^ suc l + (2 ^ l - 1)) = omega (
      arith,
      ap (λ (x : ℕ). o / 2 ^ d * x) wide,
      ap (λ (x : ℕ). x * 2 ^ suc l) (div-add-mod' o (2 ^ d)),
    ) in
    let below : suc (o % 2 ^ d) ≤ 2 ^ d = omega (arith, pow_pos d) in
    let q_lt : o / 2 ^ d < 2 ^ 64 = omega (
      arith,
      node-lt l o t,
      twice-le l o t,
      div-add-mod' o (2 ^ d),
      le-mul_of_pos_right {m = 2 ^ d} (o / 2 ^ d) (pow_pos d),
    ) in
    let shifted : node l o / 2 ^ z ≡ o / 2 ^ d =
      ap (λ (x : ℕ). x / 2 ^ z) split
      ∙ div_fields (2 ^ z) (o / 2 ^ d) (o % 2 ^ d * 2 ^ suc l + (2 ^ l - 1))
          (omega (arith, wide, pow_double l, pow_pos l, mul-le-mul_right (2 ^ suc l) below)) in
    rw (layer_bits-node l o t, gone, shifted) (omega (arith, and_evens 63 (o / 2 ^ d) q_lt))
