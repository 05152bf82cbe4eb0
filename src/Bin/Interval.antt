-- ===== src/Bin/Interval.antt =====
-- The interval of base bins under a bin: `base_offset`, `base_length`, `base_left`, `base_right`,
-- and `contains` as inclusion of intervals.
use native.Mathlib.Decide.{dec_le}
use native.Mathlib.Nat.{mul-le-mul_right}
use mathlib.Core.Path.{subst}
use libswift.Base.{ℕ, suc, ◌+◌, ◌-◌, ◌*◌, ◌^◌, ◌≤◌, ◌<◌, ◌≡◌, ◌↔◌, ap, sym, arith, true}
use libswift.Bits.Fields.{pow_double, pow_pos, mul_pow_double}
use libswift.Bits.Tail.{pow_add}
use libswift.Bin.{base_offset, base_length, base_left, base_right, contains}
use libswift.Bin.Layout.{node, InTree, node_fits, node_and, node_or, is_none-node, low_bit-node}

module _ (l o : ℕ) (t : InTree l o) where
  pub base_offset-node : base_offset (node l o) ≡ o * 2 ^ l
  unfolding base_offset
  base_offset-node = rw (node_and l o t) (omega (arith, mul_pow_double o l))

  pub base_length-node : base_length (node l o) ≡ 2 ^ l
  unfolding base_length
  base_length-node = low_bit-node l o t

  -- The leftmost and the rightmost base bin.
  pub base_left-node : base_left (node l o) ≡ node 0 (o * 2 ^ l)
  unfolding base_left
  base_left-node = rw (is_none-node l o t, node_and l o t) (omega (arith, mul_pow_double o l))

  pub base_right-node : base_right (node l o) ≡ node 0 (o * 2 ^ l + (2 ^ l - 1))
  unfolding base_right
  base_right-node =
      rw (is_none-node l o t, node_or l o t)
        (omega (arith, mul_pow_double o l, pow_double l, pow_pos l, node_fits l o t))

-- The test of `contains` at two nodes, before any simplification.
abbrev Between : ℕ → ℕ → ℕ → ℕ → Type 0
Between l o k i = (o * 2 ^ suc l ≤ node k i) × (node k i < o * 2 ^ suc l + (2 ^ suc l - 1))

-- One interval of base bins lies within another.
abbrev pub Within : ℕ → ℕ → ℕ → ℕ → Type 0
Within k i l o = (o * 2 ^ l ≤ i * 2 ^ k) × (i * 2 ^ k + 2 ^ k ≤ o * 2 ^ l + 2 ^ l)

-- Both ends are multiples of `2 ^ k`, so the test cannot end between them.
Between-Within_deep : (d k i o : ℕ) → Between (d + k) o k i → Within k i (d + k) o
Between-Within_deep d k i o h = (first, last)
  where
    scaled : o * 2 ^ (d + k) ≡ o * 2 ^ d * 2 ^ k
    scaled = omega (arith, ap (λ (t : ℕ). o * t) (pow_add d k))

    first : o * 2 ^ (d + k) ≤ i * 2 ^ k
    first = elim (dec_le (o * 2 ^ d) i) [
      | yes p ↦ omega (arith, scaled, mul-le-mul_right (2 ^ k) p)
      | no p ↦
          let q : suc i ≤ o * 2 ^ d = omega arith in
          absurd (
            omega (
              arith,
              scaled,
              mul_pow_double o (d + k),
              mul_pow_double i k,
              pow_pos k,
              mul-le-mul_right (2 ^ k) q,
            ))
    ]

    last : i * 2 ^ k + 2 ^ k ≤ o * 2 ^ (d + k) + 2 ^ (d + k)
    last = elim (dec_le (suc i) (o * 2 ^ d + 2 ^ d)) [
      | yes p ↦ omega (arith, scaled, pow_add d k, mul-le-mul_right (2 ^ k) p)
      | no p ↦
          let q : o * 2 ^ d + 2 ^ d ≤ i = omega arith in
          absurd (
            omega (
              arith,
              scaled,
              pow_add d k,
              mul_pow_double o (d + k),
              pow_double (d + k),
              mul_pow_double i k,
              pow_pos k,
              mul-le-mul_right (2 ^ k) q,
            ))
    ]

-- A bin of a higher layer lies half a bin off: its value never passes the test.
Between-shallow : (d l o i : ℕ) → Between l o (suc d + l) i → ⊥
Between-shallow d l o i h = elim (dec_le (suc o) (i * 2 ^ suc d + 2 ^ d)) [
  | yes p ↦ omega (arith, scaled, width, facts, mul-le-mul_right (2 ^ l) p)
  | no p ↦
      let q : i * 2 ^ suc d + 2 ^ d ≤ o = omega arith in
      omega (arith, scaled, width, facts, mul-le-mul_right (2 ^ l) q)
]
  where
    same : suc d + l ≡ suc (d + l)
    same = omega arith

    width : 2 ^ (suc d + l) ≡ 2 * (2 ^ d * 2 ^ l)
    width = omega (arith, ap (λ (t : ℕ). 2 ^ t) same, pow_double (d + l), pow_add d l)

    scaled : i * 2 ^ suc (suc d + l) ≡ 2 * (i * 2 ^ suc d * 2 ^ l)
    scaled = omega (arith, mul_pow_double i (suc d + l), ap (λ (t : ℕ). i * t) (pow_add (suc d) l))

    facts :
        (o * 2 ^ suc l ≡ 2 * (o * 2 ^ l))
        × (2 ^ suc l ≡ 2 * 2 ^ l)
        × (1 ≤ 2 ^ l)
        × (1 * 2 ^ l ≤ 2 ^ d * 2 ^ l)
    facts = (mul_pow_double o l, pow_double l, pow_pos l, mul-le-mul_right (2 ^ l) (pow_pos d))

Within-Between : (k i l o : ℕ) → Within k i l o → Between l o k i
Within-Between k i l o h =
    omega (arith, pow_double l, pow_double k, pow_pos k, mul_pow_double o l, mul_pow_double i k)

Between-Within : (k i l o : ℕ) → Between l o k i → Within k i l o
Between-Within k i l o h = elim (dec_le k l) [
  | yes p ↦
      let e : l - k + k ≡ l = omega arith in
      subst (λ (t : ℕ). Within k i t o) e
        (Between-Within_deep (l - k) k i o (subst (λ (t : ℕ). Between t o k i) (sym e) h))
  | no p ↦
      let e : suc (k - l - 1) + l ≡ k = omega arith in
      absurd (Between-shallow (k - l - 1) l o i (subst (λ (t : ℕ). Between l o t i) (sym e) h))
]

-- `contains` on two bins of the tree is inclusion of their intervals of base bins.
pub contains-Within :
    (l o k i : ℕ)
    → InTree l o
    → InTree k i
    → (contains (node l o) (node k i) ≡ true) ↔ Within k i l o
unfolding contains
contains-Within l o k i t u =
    rw (is_none-node l o t, node_and l o t, node_or l o t)
      (λ h. Between-Within k i l o (ground arith), λ h. ground (arith, Within-Between k i l o h))
