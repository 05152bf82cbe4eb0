-- ===== src/Binmap/Ask.antt =====
-- The walk of `trace` and the tests of `is_empty` and `is_filled` where it stops.
use Prim.Native.Nat.{bit_and}
use native.Mathlib.Decide.{dec_le}
use native.Mathlib.Nat.{pow-le-pow_right}
use libswift.Base.{
  ℕ, suc, ◌-◌, ◌*◌, ◌%◌, ◌^◌, ◌≤◌, ◌<◌, ◌≡◌, ◌↔◌, refl, ap, sym, ◌∙◌, arith, Bool, true, false, ltb,
  ltb-eq_true, ltb-eq_false, ◌==◌, ==_iff, if◌then◌else◌,
}
use libswift.Bin.{Bin, layer_bits}
use libswift.Bin.Layout.{node, InTree, layer_bits-node}
use libswift.Binmap.Heap.{Binmap, is_high}
use libswift.Binmap.Query.{bitmap_of, is_leaf, is_empty_at, is_filled_at}
use libswift.Binmap.Digits.{digit, fill}
use libswift.Binmap.Uniform.{IsUniform, bits-IsUniform}
use libswift.Binmap.Masks.{bitmap_of-node, masked-IsUniform}

-- `is_filled` (`true`) and `is_empty` (`false`) from the cell on where the trace stops.
abbrev pub answers : Bool → Binmap → Bin → ℕ → Bin → Bool
answers true = is_filled_at
answers false = is_empty_at

-- The test of one half that is a bitmap.
abbrev pub half_answers : Bool → ℕ → Bin → Bool
half_answers v b target =
    if is_high target
    then b == fill v 32
    else bit_and b (bitmap_of target) == (if v then bitmap_of target else 0)

pub answers-left :
    (v : Bool) (s : Binmap) (target cur : Bin) (p : ℕ)
    → ltb target cur ≡ true
    → answers v s target p cur ≡ half_answers v (s.cell p).left target
unfolding is_filled_at is_empty_at
answers-left true s target cur p e = rw e refl
answers-left false s target cur p e = rw e refl

pub answers-right :
    (v : Bool) (s : Binmap) (target cur : Bin) (p : ℕ)
    → ltb target cur ≡ false
    → ltb cur target ≡ true
    → answers v s target p cur ≡ half_answers v (s.cell p).right target
unfolding is_filled_at is_empty_at
answers-right true s target cur p e g = rw (e, g) refl
answers-right false s target cur p e g = rw (e, g) refl

pub answers-here :
    (v : Bool) (s : Binmap) (target : Bin) (p : ℕ)
    → is_high target ≡ true
    → answers v s target p target ≡ is_leaf (s.cell p) (fill v 32)
unfolding is_filled_at is_empty_at
answers-here true s target p e = ground (arith, e)
answers-here false s target p e = ground (arith, e)

module _ (l o : ℕ) (t : InTree l o) where
  is_high-node : is_high (node l o) ≡ ltb 63 (2 ^ suc l - 1)
  unfolding is_high layer_bits
  is_high-node = ap (ltb 63) (layer_bits-node l o t)

  pub high-true : 6 ≤ l → is_high (node l o) ≡ true
  high-true h =
      let w : 2 ^ 7 ≤ 2 ^ suc l =
        pow-le-pow_right {n = 2} (omega arith) (let e : 7 ≤ suc l = omega arith in e) in
      is_high-node ∙ ltb-eq_true 63 (2 ^ suc l - 1) (omega (arith, w))

  high-false : l ≤ 5 → is_high (node l o) ≡ false
  high-false h =
      let w : 2 ^ suc l ≤ 2 ^ 6 =
        pow-le-pow_right {n = 2} (omega arith) (let e : suc l ≤ 6 = omega arith in e) in
      is_high-node ∙ ltb-eq_false 63 (2 ^ suc l - 1) (omega (arith, w))

  pub half_answers_iff :
      (v : Bool) (b : ℕ)
      → b < 2 ^ 32
      → (half_answers v b (node l o) ≡ true) ↔ IsUniform v l o (λ i. digit b (i % 32))
  half_answers_iff v b small = elim (dec_le 6 l) [
    | yes h ↦
        let e = high-true h in
        let u = bits-IsUniform v l o b (omega arith) small in
        rw e (λ q. u.1 ((==_iff _ _).0 q), λ f. (==_iff _ _).1 (u.0 f))
    | no h ↦
        let e = high-false (omega arith) in
        let u = masked-IsUniform l o (omega arith) v b in
        rw e (λ q. u.0 ((==_iff _ _).0 q ∙ goal v h), λ f. (==_iff _ _).1 (u.1 f ∙ sym (goal v h)))
  ]
    where
      goal :
          (v : Bool)
          → ¬ (6 ≤ l)
          → (if v then bitmap_of (node l o) else 0) ≡ fill v (2 ^ l) * 2 ^ (o * 2 ^ l % 32)
      goal true h = bitmap_of-node l o (omega arith)
      goal false h = omega arith
