-- ===== src/Binmap/Leaf.antt =====
-- When a cell is a leaf of one bitmap, and which of its halves says all about a bin below it.
use libswift.Base.{
  refl, ℕ, zero, suc, ◌+◌, ◌*◌, ◌/◌, ◌%◌, ◌^◌, ◌≤◌, ◌<◌, ◌≡◌, ◌↔◌, sym, ◌∙◌, arith, Bool, true,
}
use libswift.Binmap.Heap.{Cell, Binmap}
use libswift.Binmap.Query.{is_leaf}
use libswift.Binmap.Digits.{fill}
use libswift.Binmap.Shape.{Half, bits, sub, holds, Stores, IsDeep, IsPacked}
use libswift.Binmap.Uniform.{IsUniform, bits-IsUniform, halves, IsSmall, sub-IsMixed}
use libswift.Binmap.Sides.{in_half}

pub IsDeep-le : (k : ℕ) (h : Half) → IsDeep k h → 5 ≤ k
IsDeep-le k (bits b) dp = dp
IsDeep-le zero (sub ref a c) dp = absurd dp
IsDeep-le (suc k) (sub ref a c) dp = omega (arith, IsDeep-le k a dp.0)

pub IsDeep-sub :
    (k r : ℕ) (a c : Half)
    → IsDeep k (sub r a c)
    → (k' : ℕ) × (k ≡ suc k') × IsDeep k' a × IsDeep k' c
IsDeep-sub zero r a c dp = absurd dp
IsDeep-sub (suc k) r a c dp = (k, refl, dp.0, dp.1)

Stores-IsSmall : (f : ℕ → Cell) (r : Bool) (w : ℕ) (h : Half) → Stores f r w h → IsSmall h
Stores-IsSmall f r w (bits b) st = st.2
Stores-IsSmall f r w (sub ref a c) st = (
  Stores-IsSmall f (f ref).is_left_ref (f ref).left a st.2,
  Stores-IsSmall f (f ref).is_right_ref (f ref).right c st.3,
)

module _ (s : Binmap) (v : Bool) where
  deep_apart :
      (k o r : ℕ) (a b : Half) {flag : Bool} {w : ℕ}
      → Stores s.cell flag w (sub r a b)
      → IsDeep k (sub r a b)
      → IsPacked (sub r a b)
      → IsUniform v k o (holds k (sub r a b))
      → ⊥
  deep_apart zero o r a b st dp pk u = absurd dp
  deep_apart (suc k) o r a b st dp pk u =
      sub-IsMixed v k o r a b dp.0 dp.1 pk (Stores-IsSmall s.cell _ _ a st.2)
        (Stores-IsSmall s.cell _ _ b st.3) u

  -- A cell is a leaf of one bitmap exactly if its halves are uniform.
  pub leaf_iff :
      (k o p : ℕ) (a c : Half)
      → Stores s.cell (s.cell p).is_left_ref (s.cell p).left a
      → Stores s.cell (s.cell p).is_right_ref (s.cell p).right c
      → IsDeep k a
      → IsDeep k c
      → IsPacked a
      → IsPacked c
      → (is_leaf (s.cell p) (fill v 32) ≡ true) ↔ IsUniform v (suc k) o (holds (suc k) (sub p a c))
  leaf_iff k o p (bits x) (bits y) sa sc da dc pa pc =
      let u = bits-IsUniform v k (2 * o) x da sa.2 in
      let w = bits-IsUniform v k (2 * o + 1) y dc sc.2 in
      let both = halves v k o p (bits x) (bits y) in
      (
        λ e. both.1 (u.1 (ground (arith, sa, sc)), w.1 (ground (arith, sa, sc))),
        λ f. let x_is = u.0 (both.0 f).0 in let y_is = w.0 (both.0 f).1 in ground (arith, sa, sc),
      )
  leaf_iff k o p (sub r a b) c sa sc da dc pa pc = (
    λ e. absurd (ground (arith, sa.0)),
    λ f. absurd (deep_apart k (2 * o) r a b sa da pa ((halves v k o p (sub r a b) c).0 f).0),
  )
  leaf_iff k o p (bits x) (sub r a b) sa sc da dc pa pc = (
    λ e. absurd (ground (arith, sc.0)),
    λ f.
        absurd
          (deep_apart k (2 * o + 1) r a b sc dc pc ((halves v k o p (bits x) (sub r a b)).0 f).1),
  )

  -- The half on the target's side says it all.
  pub side-left :
      (d l o p : ℕ) (a c : Half)
      → o / 2 ^ d % 2 ≡ 0
      → IsUniform v l o (holds (suc (d + l)) (sub p a c)) ↔ IsUniform v l o (holds (d + l) a)
  side-left d l o p a c even =
      (λ f i x y. sym (same i x y) ∙ f i x y, λ f i x y. same i x y ∙ f i x y)
    where
      same :
          (i : ℕ)
          → o * 2 ^ l ≤ i
          → i < o * 2 ^ l + 2 ^ l
          → holds (suc (d + l)) (sub p a c) i ≡ holds (d + l) a i
      same i x y = ground (arith, in_half d l o i x y, even)

  pub side-right :
      (d l o p : ℕ) (a c : Half)
      → o / 2 ^ d % 2 ≡ 1
      → IsUniform v l o (holds (suc (d + l)) (sub p a c)) ↔ IsUniform v l o (holds (d + l) c)
  side-right d l o p a c odd =
      (λ f i x y. sym (same i x y) ∙ f i x y, λ f i x y. same i x y ∙ f i x y)
    where
      same :
          (i : ℕ)
          → o * 2 ^ l ≤ i
          → i < o * 2 ^ l + 2 ^ l
          → holds (suc (d + l)) (sub p a c) i ≡ holds (d + l) c i
      same i x y = ground (arith, in_half d l o i x y, odd)
