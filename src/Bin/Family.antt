-- ===== src/Bin/Family.antt =====
-- The kin of a bin: `parent`, `left`, `right`, `sibling`, `is_left`, as moves in the tree.
use Prim.Native.Nat.{bit_and, bit_or, bit_xor}
use native.Mathlib.Nat.{pow-le-pow_right, mod-eq_of_lt}
use libswift.Base.{ℕ, suc, ◌+◌, ◌-◌, ◌*◌, ◌/◌, ◌%◌, ◌^◌, ◌≤◌, ◌<◌, ◌≡◌, ap, arith, ◌==◌}
use libswift.Word.{add64, sub64, shr64}
use libswift.Bits.Step.{and_step, xor_step}
use libswift.Bits.Fields.{
  pow_double, pow_pos, mul_pow_double, and_fields, or_fields, xor_fields, and-zero, or-zero,
  xor-zero, and_self, and_mask,
}
use libswift.Bits.Tail.{or_ones, xor_ones}
use libswift.Bin.{is_left, parent, left, right, sibling}
use libswift.Bin.Layout.{node, InTree, node_fits, layer_bits-node, low_bit-node, whole}

-- The other child of a node's parent.
abbrev pub buddy : ℕ → ℕ
buddy o = o / 2 * 2 + (o + 1) % 2

pub xor-one : (o : ℕ) → bit_xor o 1 ≡ buddy o
xor-one o = omega (arith, xor_step o 1, xor-zero (o / 2))

pub and-one : (o : ℕ) → bit_and o 1 ≡ o % 2
and-one o = omega (arith, and_step o 1, and-zero (o / 2))

-- All ones but the lowest digit.
pub and_evens : (k o : ℕ) → o < 2 ^ suc k → bit_and o (2 ^ suc k - 2) ≡ o / 2 * 2
and_evens k o h =
    let fits : o / 2 % 2 ^ k ≡ o / 2 = mod-eq_of_lt (omega (arith, pow_double k)) in
    ground (
      arith,
      pow_double k,
      pow_pos k,
      and_step o (2 ^ suc k - 2),
      and_mask k (o / 2),
      and-zero (o % 2),
      fits,
    )

-- `v` with the digit above its tail: toggled, and alone.
xor_above : (l o : ℕ) → bit_xor (node l o) (2 ^ suc l) ≡ node l (buddy o)
xor_above l o = ground (
  arith,
  pow_double l,
  pow_pos l,
  xor_fields (suc l) o 1 (2 ^ l - 1) 0,
  xor-zero (2 ^ l - 1),
  ap (λ (k : ℕ). k * 2 ^ suc l) (xor-one o),
)

and_above : (l o : ℕ) → bit_and (node l o) (2 ^ suc l) ≡ o % 2 * 2 ^ suc l
and_above l o = ground (
  arith,
  pow_double l,
  pow_pos l,
  and_fields (suc l) o 1 (2 ^ l - 1) 0,
  and-zero (2 ^ l - 1),
  ap (λ (k : ℕ). k * 2 ^ suc l) (and-one o),
)

module _ (l o : ℕ) (t : InTree l o) (below : l < 63) where
  half_word : 2 ^ suc l ≤ 2 ^ 63
  half_word = pow-le-pow_right (omega arith) below

  above : add64 (2 ^ suc l - 1) 1 ≡ 2 ^ suc l
  above = omega (arith, half_word, pow_pos (suc l))

  -- `nlbs` in `parent`: all ones but the digit above the tail.
  nlbs-node :
      sub64 (sub64 0 2) (2 ^ suc l - 1) ≡ (2 ^ suc (62 - l) - 2) * 2 ^ suc l + (2 ^ suc l - 1)
  nlbs-node =
      let e : 63 - l ≡ suc (62 - l) = omega arith in
      let head : 2 ^ (63 - l) ≡ 2 ^ suc (62 - l) - 2 + 2 =
        omega (arith, ap (λ (k : ℕ). 2 ^ k) e, pow_double (62 - l), pow_pos (62 - l)) in
      omega (arith, half_word, pow_pos (suc l), whole l o t, ap (λ (k : ℕ). k * 2 ^ suc l) head)

  pub parent-node : parent (node l o) ≡ node (suc l) (o / 2)
  unfolding parent
  parent-node =
      let e : 63 - l ≡ suc (62 - l) = omega arith in
      let head : o < 2 ^ suc (62 - l) = omega (arith, ap (λ (k : ℕ). 2 ^ k) e) in
      let filled : bit_or (node l o) (2 ^ suc l - 1) ≡ o * 2 ^ suc l + (2 ^ suc l - 1) = ground (
        arith,
        pow_double l,
        pow_pos l,
        or_fields (suc l) o 0 (2 ^ l - 1) (2 ^ suc l - 1),
        or-zero o,
        or_ones l,
      ) in
      rw (layer_bits-node l o t, nlbs-node, filled)
        (ground (
          arith,
          pow_double l,
          pow_pos l,
          and_fields (suc l) o (2 ^ suc (62 - l) - 2) (2 ^ suc l - 1) (2 ^ suc l - 1),
          ap (λ (k : ℕ). k * 2 ^ suc l) (and_evens (62 - l) o head),
          and_self (2 ^ suc l - 1),
          mul_pow_double (o / 2) (suc l),
        ))

  pub sibling-node : sibling (node l o) ≡ node l (buddy o)
  unfolding sibling
  sibling-node = rw (layer_bits-node l o t, above) (xor_above l o)

  pub is_left-node : is_left (node l o) ≡ (o % 2 == 0)
  unfolding is_left
  is_left-node = rw (layer_bits-node l o t, above, and_above l o) (grind (arith, pow_pos (suc l)))

module _ (l o : ℕ) (t : InTree (suc l) o) where
  half_low : shr64 (2 ^ suc l) 1 ≡ 2 ^ l
  half_low = omega (arith, pow_double l)

  pub left-node : left (node (suc l) o) ≡ node l (2 * o)
  unfolding left
  left-node =
      rw (low_bit-node (suc l) o t, half_low)
        (ground (
          arith,
          pow_double l,
          pow_pos l,
          xor_fields (suc l) (2 * o) 0 (2 ^ suc l - 1) (2 ^ l),
          mul_pow_double o (suc l),
          xor-zero (2 * o),
          xor_ones l,
        ))

  pub right-node : right (node (suc l) o) ≡ node l (2 * o + 1)
  unfolding right
  right-node =
      rw (low_bit-node (suc l) o t, half_low)
        (omega (
          arith,
          pow_double l,
          pow_double (suc l),
          pow_pos l,
          mul_pow_double o (suc l),
          node_fits (suc l) o t,
        ))
