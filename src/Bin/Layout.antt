-- ===== src/Bin/Layout.antt =====
-- The tree behind the encoding: `node l o` is the bin at layer `l` and offset `o`, that is, the
-- base bins from `o * 2 ^ l` up to `(o + 1) * 2 ^ l`. A bin of 64 bits has a layer up to 63.
use Prim.Native.Nat.{bit_and, bit_or}
use native.Mathlib.Nat.{mul-le-mul_right}
use libswift.Base.{
  ℕ, suc, ◌+◌, ◌-◌, ◌*◌, ◌%◌, ◌^◌, ◌≤◌, ◌<◌, ◌≡◌, ◌↔◌, true, ==_iff, refl, sym, ◌∙◌, ap, arith,
  false, ltb-eq_true,
}
use libswift.Word.{add64, low_bit}
use libswift.Bits.Fields.{pow_double, pow_pos, mul_pow_double}
use libswift.Bits.Tail.{exponent-le, pow_add, and_carry, or_carry, xor_carry, and_negation}
use libswift.Bin.{Bin, of_layer, all_bin, is_all, is_none, layer_bits}

abbrev pub node : ℕ → ℕ → Bin
node l o = o * 2 ^ suc l + (2 ^ l - 1)

abbrev pub InTree : ℕ → ℕ → Type 0
InTree l o = (l ≤ 63) × (o < 2 ^ (63 - l))

module _ (l o : ℕ) (t : InTree l o) where
  pub whole : 2 ^ (63 - l) * 2 ^ suc l ≡ 2 ^ 64
  whole =
      let e : 63 - l + suc l ≡ 64 = omega arith in
      omega (arith, ap (λ (k : ℕ). 2 ^ k) e, pow_add (63 - l) (suc l))

  pub twice-le : o * 2 ≤ o * 2 ^ suc l
  twice-le = grind (arith, pow_double l, pow_pos l)

  -- The interval ends within the 64 bits.
  pub node_fits : o * 2 ^ suc l + 2 ^ suc l ≤ 2 ^ 64
  node_fits =
      omega (arith, whole, mul-le-mul_right (2 ^ suc l) (let h : suc o ≤ 2 ^ (63 - l) = t.1 in h))

  pub node-lt : node l o + 1 < 2 ^ 64
  node-lt = omega (arith, node_fits, pow_double l, pow_pos l)

  pub add64-node : add64 (node l o) 1 ≡ o * 2 ^ suc l + 2 ^ l
  add64-node = omega (arith, node-lt, pow_pos l)

  pub is_none-node : is_none (node l o) ≡ false
  unfolding is_none
  is_none-node = ground (arith, node-lt)

  pub of_layer-node : of_layer l o ≡ node l o
  unfolding of_layer
  of_layer-node =
      let small : 2 * o + 1 < 2 ^ 64 =
        omega (arith, node_fits, pow_double l, pow_pos l, twice-le) in
      let odd : add64 (2 * o) 1 ≡ 2 * o + 1 = omega arith in
      rw (ltb-eq_true l 64 (omega arith), odd)
        (omega (arith, node-lt, mul_pow_double o l, pow_double l, pow_pos l))

  pub node_and : bit_and (node l o) (add64 (node l o) 1) ≡ o * 2 ^ suc l
  node_and = rw add64-node (and_carry l o)

  pub node_or : bit_or (node l o) (add64 (node l o) 1) ≡ o * 2 ^ suc l + (2 ^ suc l - 1)
  node_or = rw add64-node (or_carry l o)

  pub layer_bits-node : layer_bits (node l o) ≡ 2 ^ suc l - 1
  unfolding layer_bits
  layer_bits-node = rw add64-node (xor_carry l o)

  pub low_bit-node : low_bit (add64 (node l o) 1) ≡ 2 ^ l
  low_bit-node =
      let e : 63 - l + suc l ≡ 64 = omega arith in
      let negated : (2 ^ 64 - (o * 2 ^ suc l + 2 ^ l)) % 2 ^ 64
          ≡ 2 ^ (63 - l + suc l) - (o * 2 ^ suc l + 2 ^ l) =
        omega (arith, ap (λ (k : ℕ). 2 ^ k) e, pow_pos l) in
      rw (add64-node, negated) (and_negation l o (63 - l) t.1)

pub all_bin-node : all_bin ≡ node 63 0
unfolding all_bin of_layer
all_bin-node = refl

-- Of the bins at offset 0, only the topmost is ALL.
pub is_all-node : (l : ℕ) → l ≤ 63 → (is_all (node l 0) ≡ true) ↔ (l ≡ 63)
unfolding is_all
is_all-node l h = (
  λ e.
      let same : node l 0 ≡ node 63 0 = (==_iff _ _).0 e ∙ all_bin-node in
      let top : 63 ≤ l = exponent-le 63 l (omega (arith, same)) in omega arith,
  λ e. (==_iff _ _).1 (ap (λ (x : ℕ). node x 0) e ∙ sym all_bin-node),
)

-- The second bin of a layer below ALL.
pub second-InTree : (l : ℕ) → l < 63 → InTree l 1
second-InTree l h =
    let e : 63 - l ≡ suc (62 - l) = omega arith in
    (omega arith, omega (arith, ap (λ (x : ℕ). 2 ^ x) e, pow_double (62 - l), pow_pos (62 - l)))
