-- ===== src/Bin/Twist.antt =====
-- `twisted`, the permutation by which a peer varies its order of picking, and `layer_shifted`.
use Prim.Native.Nat.{bit_and, bit_xor}
use native.Mathlib.Nat.{lt_of_mul-lt-mul_right, mod-eq_of_lt, div-add-mod'}
use libswift.Base.{ℕ, zero, suc, ◌+◌, ◌-◌, ◌*◌, ◌/◌, ◌%◌, ◌^◌, ◌≤◌, ◌<◌, ◌≡◌, refl, ap, ◌∙◌, arith}
use libswift.Word.{shl64, compl64}
use libswift.Bits.Step.{xor_step}
use libswift.Bits.Fields.{
  pow_double, pow_pos, mul_pow_double, and_fields, xor_fields, and-zero, xor-zero, and_mask,
  div_fields,
}
use libswift.Bin.{twisted}
use libswift.Bin.Layout.{node, InTree, layer_bits-node, whole}

xor_cancel_below : (k a m : ℕ) → a ≤ k → m ≤ k → bit_xor (bit_xor a m) m ≡ a
xor_cancel_below zero zero zero p q = refl
xor_cancel_below zero zero (suc m) p q = absurd (omega arith)
xor_cancel_below zero (suc a) m p q = absurd (omega arith)
xor_cancel_below (suc k) a m p q =
    ground (arith, xor_step a m, xor_step (bit_xor a m) m, xor_cancel_below k (a / 2) (m / 2))

-- `^` by the same number twice.
pub xor_cancel : (a m : ℕ) → bit_xor (bit_xor a m) m ≡ a
xor_cancel a m = xor_cancel_below (a + m) a m (omega arith) (omega arith)

-- Digits do not spread: `^` of two numbers of `k` digits has `k` digits.
pub xor-lt : (k a b : ℕ) → a < 2 ^ k → b < 2 ^ k → bit_xor a b < 2 ^ k
xor-lt zero zero zero p q = p
xor-lt zero zero (suc b) p q = absurd (omega arith)
xor-lt zero (suc a) b p q = absurd (omega arith)
xor-lt (suc k) a b p q = omega (
  arith,
  xor_step a b,
  pow_double k,
  xor-lt k (a / 2) (b / 2) (omega (arith, pow_double k)) (omega (arith, pow_double k)),
)

-- The part of the mask above a layer.
abbrev pub turn : ℕ → ℕ → ℕ
turn l m = shl64 m 1 / 2 ^ suc l

pub turn-eq-shift : (l m : ℕ) → m < 2 ^ 63 → turn l m ≡ m / 2 ^ l
turn-eq-shift l m h =
    let e : shl64 m 1 ≡ 2 * m = omega arith in
    let split : 2 * m ≡ m / 2 ^ l * 2 ^ suc l + 2 * (m % 2 ^ l) =
      omega (arith, div-add-mod' m (2 ^ l), mul_pow_double (m / 2 ^ l) l) in
    ap (λ (x : ℕ). x / 2 ^ suc l) (e ∙ split)
    ∙ div_fields (2 ^ suc l) (m / 2 ^ l) (2 * (m % 2 ^ l)) (omega (arith, pow_double l, pow_pos l))

module _ (l o m : ℕ) (t : InTree l o) where
  turn-lt : turn l m < 2 ^ (63 - l)
  turn-lt =
      lt_of_mul-lt-mul_right (2 ^ suc l)
        (omega (arith, whole l o t, div-add-mod' (shl64 m 1) (2 ^ suc l)))

  mask-node : bit_and (shl64 m 1) (compl64 (2 ^ suc l - 1)) ≡ turn l m * 2 ^ suc l
  mask-node =
      let tail : shl64 m 1 % 2 ^ suc l < 2 ^ suc l = omega (arith, pow_pos (suc l)) in
      let ones : compl64 (2 ^ suc l - 1) ≡ (2 ^ (63 - l) - 1) * 2 ^ suc l = omega (
        arith,
        whole l o t,
        pow_pos (suc l),
        pow_pos (63 - l),
        ap (λ (k : ℕ). k * 2 ^ suc l)
            (let n : 2 ^ (63 - l) ≡ 2 ^ (63 - l) - 1 + 1 = omega (arith, pow_pos (63 - l)) in n),
      ) in
      ground (
        arith,
        ones,
        pow_pos (suc l),
        div-add-mod' (shl64 m 1) (2 ^ suc l),
        and_fields (suc l) (turn l m) (2 ^ (63 - l) - 1) (shl64 m 1 % 2 ^ suc l) 0 tail,
        and-zero (shl64 m 1 % 2 ^ suc l),
        and_mask (63 - l) (turn l m),
        mod-eq_of_lt turn-lt,
      )

  -- The mask turns the digits of the offset, and leaves the layer.
  pub twisted-node : twisted (node l o) m ≡ node l (bit_xor o (turn l m))
  unfolding twisted
  twisted-node =
      rw (layer_bits-node l o t, mask-node)
        (ground (
          arith,
          pow_double l,
          pow_pos l,
          xor_fields (suc l) o (turn l m) (2 ^ l - 1) 0,
          xor-zero (2 ^ l - 1),
        ))

  pub twisted-InTree : InTree l (bit_xor o (turn l m))
  twisted-InTree = (t.0, xor-lt (63 - l) o (turn l m) t.1 turn-lt)
