-- ===== src/Bits/Tail.antt =====
-- What `n & (n + 1)`, `n | (n + 1)` and `n ^ (n + 1)` do to a number that ends in a zero and `l`
-- ones: the carry turns that tail over. And `t & -t` for a number that ends in a one and `l` zeros.
use Prim.Native.Nat.{bit_and, bit_or, bit_xor}
use native.Mathlib.Decide.{dec_le}
use native.Mathlib.Nat.{pow-le-pow_right}
use libswift.Base.{ℕ, zero, suc, ◌+◌, ◌-◌, ◌*◌, ◌^◌, ◌≤◌, ◌<◌, ◌≡◌, ap, arith}
use libswift.Bits.Fields.{
  pow_double, pow_pos, and_fields, or_fields, xor_fields, and-zero, or-zero, xor-zero, and_self,
  or_self, xor_self, and_complement,
}

pub pow_add : (a b : ℕ) → 2 ^ (a + b) ≡ 2 ^ a * 2 ^ b
pow_add zero b = ground arith
pow_add (suc a) b =
    let e : suc a + b ≡ suc (a + b) = omega arith in
    omega (
      arith,
      ap (λ (t : ℕ). 2 ^ t) e,
      pow_double (a + b),
      pow_add a b,
      ap (λ (t : ℕ). t * 2 ^ b) (pow_double a),
    )

-- A smaller power of two has a smaller exponent.
pub exponent-le : (l k : ℕ) → 2 ^ l ≤ 2 ^ k → l ≤ k
exponent-le l k h = elim (dec_le l k) [
  | yes p ↦ p
  | no p ↦
      let w : 2 ^ suc k ≤ 2 ^ l =
        pow-le-pow_right {n = 2} (omega arith) (let e : suc k ≤ l = omega arith in e) in
      absurd (omega (arith, w, h, pow_double k, pow_pos k))
]

module _ (l : ℕ) where
  tail_and : bit_and (2 ^ l - 1) (2 ^ l) ≡ 0
  tail_and = ground (arith, pow_pos l, and_fields l 0 1 (2 ^ l - 1) 0, and-zero (2 ^ l - 1))

  tail_or : bit_or (2 ^ l - 1) (2 ^ l) ≡ 2 ^ suc l - 1
  tail_or =
      ground (arith, pow_pos l, pow_double l, or_fields l 0 1 (2 ^ l - 1) 0, or-zero (2 ^ l - 1))

  tail_xor : bit_xor (2 ^ l - 1) (2 ^ l) ≡ 2 ^ suc l - 1
  tail_xor =
      ground (arith, pow_pos l, pow_double l, xor_fields l 0 1 (2 ^ l - 1) 0, xor-zero (2 ^ l - 1))

  -- One more one in front of a tail of ones; `|` fills it in, `^` by that digit takes it away.
  pub or_ones : bit_or (2 ^ l - 1) (2 ^ suc l - 1) ≡ 2 ^ suc l - 1
  or_ones =
      ground (
        arith,
        pow_pos l,
        pow_double l,
        or_fields l 0 1 (2 ^ l - 1) (2 ^ l - 1),
        or_self (2 ^ l - 1),
      )

  pub xor_ones : bit_xor (2 ^ suc l - 1) (2 ^ l) ≡ 2 ^ l - 1
  xor_ones =
      ground (arith, pow_pos l, pow_double l, xor_fields l 1 1 (2 ^ l - 1) 0, xor-zero (2 ^ l - 1))

  module _ (o : ℕ) where
    pub and_carry : bit_and (o * 2 ^ suc l + (2 ^ l - 1)) (o * 2 ^ suc l + 2 ^ l) ≡ o * 2 ^ suc l
    and_carry = ground (
      arith,
      pow_double l,
      pow_pos l,
      and_fields (suc l) o o (2 ^ l - 1) (2 ^ l),
      tail_and,
      and_self o,
    )

    pub or_carry :
        bit_or (o * 2 ^ suc l + (2 ^ l - 1)) (o * 2 ^ suc l + 2 ^ l)
        ≡ o * 2 ^ suc l + (2 ^ suc l - 1)
    or_carry = ground (
      arith,
      pow_double l,
      pow_pos l,
      or_fields (suc l) o o (2 ^ l - 1) (2 ^ l),
      tail_or,
      or_self o,
    )

    pub xor_carry : bit_xor (o * 2 ^ suc l + (2 ^ l - 1)) (o * 2 ^ suc l + 2 ^ l) ≡ 2 ^ suc l - 1
    xor_carry = ground (
      arith,
      pow_double l,
      pow_pos l,
      xor_fields (suc l) o o (2 ^ l - 1) (2 ^ l),
      tail_xor,
      xor_self o,
    )

    -- With `k` digits above the tail, `-t` is the complement of the head over the same tail.
    pub and_negation :
        (k : ℕ)
        → o < 2 ^ k
        → bit_and (o * 2 ^ suc l + 2 ^ l) (2 ^ (k + suc l) - (o * 2 ^ suc l + 2 ^ l)) ≡ 2 ^ l
    and_negation k h =
        let negated : 2 ^ (k + suc l) - (o * 2 ^ suc l + 2 ^ l)
            ≡ (2 ^ k - 1 - o) * 2 ^ suc l + 2 ^ l =
          (let head : 2 ^ k ≡ (2 ^ k - 1 - o) + 1 + o = omega arith in
            omega (
              arith,
              pow_add k (suc l),
              pow_double l,
              pow_pos l,
              ap (λ (t : ℕ). t * 2 ^ suc l) head,
            )) in
        rw negated (
          ground (
            arith,
            pow_double l,
            pow_pos l,
            and_fields (suc l) o (2 ^ k - 1 - o) (2 ^ l) (2 ^ l),
            and_self (2 ^ l),
            and_complement k o h,
          ))
