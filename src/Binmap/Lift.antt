-- ===== src/Binmap/Lift.antt =====
-- The first of a cell is the first of its left half, or else of its right.
use native.Mathlib.Decide.{dec_lt}
use libswift.Base.{ℕ, suc, ◌+◌, ◌*◌, ◌^◌, ◌≡◌, ◌∙◌, arith, Bool, not, Option}
use libswift.Bits.Fields.{pow_double, pow_pos, mul_pow_double}
use libswift.Bin.{Bin}
use libswift.Binmap.Shape.{Half, sub, holds}
use libswift.Binmap.Uniform.{IsUniform, holds-left, holds-right}
use libswift.Binmap.Leads.{Leads}

-- The first of a cell lies in its left half, or else in its right.
module _ (v : Bool) (k n ref : ℕ) (a c : Half) (r : Option Bin) where
  facts : (n * 2 ^ suc k ≡ 2 * (n * 2 ^ k)) × (2 ^ suc k ≡ 2 * 2 ^ k)
  facts = (mul_pow_double n k, pow_double k)

  pub lift_left :
      Leads v k (2 * n) (holds k a) r → Leads v (suc k) n (holds (suc k) (sub ref a c)) r
  lift_left (l, o, e, t, p, q, u, w) = (
    l,
    o,
    e,
    t,
    omega (arith, facts),
    omega (arith, facts),
    λ i x y. holds-left k n ref a c i (omega arith) (omega arith) ∙ u i x y,
    λ i x y.
        holds-left k n ref a c i (omega (arith, facts)) (omega (arith, facts, pow_pos l))
        ∙ w i (omega (arith, facts)) y,
  )

  pub lift_right :
      IsUniform (not v) k (2 * n) (holds k a)
      → Leads v k (2 * n + 1) (holds k c) r
      → Leads v (suc k) n (holds (suc k) (sub ref a c)) r
  lift_right f (l, o, e, t, p, q, u, w) = (
    l,
    o,
    e,
    t,
    omega (arith, facts),
    omega (arith, facts),
    λ i x y. holds-right k n ref a c i (omega arith) (omega arith) ∙ u i x y,
    λ i x y. elim (dec_lt i (2 * n * 2 ^ k + 2 ^ k)) [
      | yes h ↦ holds-left k n ref a c i (omega (arith, facts)) h ∙ f i (omega (arith, facts)) h
      | no h ↦
          holds-right k n ref a c i (omega arith) (omega (arith, pow_pos l)) ∙ w i (omega arith) y
    ],
  )
