-- ===== src/Binmap/Uniform.antt =====
-- Halves that hold all the base bins of an interval, or none of them.
use native.Mathlib.Decide.{dec_lt}
use libswift.Base.{
  ℕ, zero, suc, ◌+◌, ◌-◌, ◌*◌, ◌/◌, ◌%◌, ◌^◌, ◌≤◌, ◌<◌, ◌≡◌, ◌↔◌, ap, sym, ◌∙◌, arith, Bool,
}
use libswift.Bits.Fields.{pow_double, pow_pos, mul_pow_double, div_fields}
use libswift.Bits.Tail.{pow_add}
use libswift.Binmap.Digits.{digit, fill, all_digits_to, all_digits_from}
use libswift.Binmap.Shape.{Half, bits, sub, holds, IsDeep, IsPacked}

-- Every base bin under the bin at layer `l` and offset `o` is held (`true`), or none is.
abbrev pub IsUniform : Bool → ℕ → ℕ → (ℕ → Bool) → Type 0
IsUniform v l o p = (i : ℕ) → o * 2 ^ l ≤ i → i < o * 2 ^ l + 2 ^ l → p i ≡ v

-- Over 32 base bins or more, a bitmap is uniform exactly if all its digits are the same.
pub bits-IsUniform :
    (v : Bool) (l o b : ℕ)
    → 5 ≤ l
    → b < 2 ^ 32
    → IsUniform v l o (λ i. digit b (i % 32)) ↔ (b ≡ fill v 32)
bits-IsUniform v l o b low small =
    let wide : 2 ^ l ≡ 2 ^ (l - 5) * 32 =
      ap (λ (x : ℕ). 2 ^ x) (let e : l ≡ l - 5 + 5 = omega arith in e) ∙ pow_add (l - 5) 5 in
    let scaled : o * 2 ^ l ≡ o * 2 ^ (l - 5) * 32 = omega (arith, ap (λ (x : ℕ). o * x) wide) in
    let whole : b % 2 ^ 32 ≡ b = omega arith in
    (
      λ f.
          sym whole
          ∙ all_digits_from v 32 b (λ j h.
            let inside : (o * 2 ^ (l - 5) * 32 + j) % 32 ≡ j = omega arith in
            ap (digit b) (sym inside)
            ∙ f (o * 2 ^ (l - 5) * 32 + j) (omega arith) (omega (arith, pow_pos (l - 5)))),
      λ e i p q. all_digits_to v 32 b (whole ∙ e) (i % 32) (omega arith),
    )

-- Each half of a cell answers for its own base bins.
module _ (k o ref : ℕ) (a c : Half) where
  pub holds-left :
      (i : ℕ)
      → 2 * o * 2 ^ k ≤ i
      → i < 2 * o * 2 ^ k + 2 ^ k
      → holds (suc k) (sub ref a c) i ≡ holds k a i
  holds-left i p q =
      let split : 2 * o * 2 ^ k + (i - 2 * o * 2 ^ k) ≡ i = omega arith in
      let head : i / 2 ^ k ≡ 2 * o =
        ap (λ (x : ℕ). x / 2 ^ k) (sym split)
        ∙ div_fields (2 ^ k) (2 * o) (i - 2 * o * 2 ^ k) (omega arith) in
      ground (arith, head)

  pub holds-right :
      (i : ℕ)
      → (2 * o + 1) * 2 ^ k ≤ i
      → i < (2 * o + 1) * 2 ^ k + 2 ^ k
      → holds (suc k) (sub ref a c) i ≡ holds k c i
  holds-right i p q =
      let split : (2 * o + 1) * 2 ^ k + (i - (2 * o + 1) * 2 ^ k) ≡ i = omega arith in
      let head : i / 2 ^ k ≡ 2 * o + 1 =
        ap (λ (x : ℕ). x / 2 ^ k) (sym split)
        ∙ div_fields (2 ^ k) (2 * o + 1) (i - (2 * o + 1) * 2 ^ k) (omega arith) in
      ground (arith, head)

-- The two children of an interval.
pub halves :
    (v : Bool) (k o : ℕ) (ref : ℕ) (a c : Half)
    → IsUniform v (suc k) o (holds (suc k) (sub ref a c))
      ↔ (IsUniform v k (2 * o) (holds k a) × IsUniform v k (2 * o + 1) (holds k c))
halves v k o ref a c =
    let in_left = holds-left k o ref a c in
    let in_right = holds-right k o ref a c in
    (
      λ f. (
        λ i p q. sym (in_left i p q) ∙ f i (omega (arith, facts)) (omega (arith, facts)),
        λ i p q. sym (in_right i p q) ∙ f i (omega (arith, facts)) (omega (arith, facts)),
      ),
      λ g i p q. elim (dec_lt i (2 * o * 2 ^ k + 2 ^ k)) [
        | yes h ↦ let p' : 2 * o * 2 ^ k ≤ i = omega (arith, facts) in in_left i p' h ∙ g.0 i p' h
        | no h ↦
            let p' : (2 * o + 1) * 2 ^ k ≤ i = omega (arith, facts) in
            let q' : i < (2 * o + 1) * 2 ^ k + 2 ^ k = omega (arith, facts) in
            in_right i p' q' ∙ g.1 i p' q'
      ],
    )
  where
    facts : (o * 2 ^ suc k ≡ 2 * (o * 2 ^ k)) × (2 ^ suc k ≡ 2 * 2 ^ k)
    facts = (mul_pow_double o k, pow_double k)

-- Each bitmap has 32 digits.
abbrev pub IsSmall : Half → Type 0
IsSmall (bits b) = b < 2 ^ 32
IsSmall (sub ref a c) = IsSmall a × IsSmall c

-- A packed cell holds some base bins of its interval, and not all.
pub sub-IsMixed :
    (v : Bool) (k o ref : ℕ) (a c : Half)
    → IsDeep k a
    → IsDeep k c
    → IsPacked (sub ref a c)
    → IsSmall a
    → IsSmall c
    → IsUniform v (suc k) o (holds (suc k) (sub ref a c))
    → ⊥
sub-IsMixed v k o ref (bits x) (bits y) da dc p sa sc u =
    let (f, g) = (halves v k o ref (bits x) (bits y)).0 u in
    p.2 (
      (bits-IsUniform v k (2 * o) x da sa).0 f ∙ sym ((bits-IsUniform v k (2 * o + 1) y dc sc).0 g))
sub-IsMixed v (suc k) o ref (sub r a b) c da dc p sa sc u =
    sub-IsMixed v k (2 * o) r a b da.0 da.1 p.0 sa.0 sa.1
      ((halves v (suc k) o ref (sub r a b) c).0 u).0
sub-IsMixed v (suc k) o ref (bits x) (sub r a b) da dc p sa sc u =
    sub-IsMixed v k (2 * o + 1) r a b dc.0 dc.1 p.1 sc.0 sc.1
      ((halves v (suc k) o ref (bits x) (sub r a b)).0 u).1
sub-IsMixed v zero o ref (sub r a b) c da dc p sa sc u = absurd da
sub-IsMixed v zero o ref (bits x) (sub r a b) da dc p sa sc u = absurd dc
