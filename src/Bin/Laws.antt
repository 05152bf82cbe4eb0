-- ===== src/Bin/Laws.antt =====
-- What the methods of `bin_t` promise of the bins that the constructor `bin_t(layer, offset)`
-- builds, over all 64 layers.
use Prim.Native.Nat.{bit_xor}
use native.Mathlib.Decide.{dec_le, dec_lt}
use native.Mathlib.Nat.{mul-le-mul_right, pow-le-pow_right}
use mathlib.Core.Path.{subst}
use libswift.Base.{
  ℕ, suc, ◌+◌, ◌-◌, ◌*◌, ◌/◌, ◌^◌, ◌≤◌, ◌<◌, ◌≡◌, ◌↔◌, ◌⊎◌, refl, inl, inr, leb, leb-eq_true,
  leb-eq_false, ap, sym, ◌∙◌, arith, true, not, some, ltb, if◌then◌else◌, ◌==◌,
}
use libswift.Bits.Fields.{div_double, div-le, pow_double, pow_pos, mul_pow_double}
use libswift.Bits.Tail.{pow_add}
use libswift.Bin.{
  Bin, of_layer, base_offset, base_length, is_left, is_right, parent, left, right, sibling,
  base_left, base_right, twisted, contains, layer_shifted, sort_on_layer,
}
use libswift.Bin.Steps.{
  to_parent, to_left, to_right, to_sibling, to_base_left, to_base_right, to_twisted,
  to_layer_shifted,
}
use libswift.Bin.Layout.{node, InTree, of_layer-node, node_fits}
use libswift.Bin.Family.{buddy, parent-node, sibling-node, is_left-node, left-node, right-node}
use libswift.Bin.Layer.{layer-node, layer_offset-node}
use libswift.Bin.Interval.{
  base_offset-node, base_length-node, base_left-node, base_right-node, Within, contains-Within,
}
use libswift.Bin.Twist.{turn, turn-eq-shift, xor_cancel, twisted-node, twisted-InTree}
use libswift.Bin.Shift.{layer_shifted-node, layer_shifted-small}

-- The children of a bin above the base.
pub children-InTree : (l o : ℕ) → InTree (suc l) o → InTree l (2 * o) × InTree l (2 * o + 1)
children-InTree l o t =
    let same : 63 - l ≡ suc (63 - suc l) = omega arith in
    omega (arith, ap (λ (k : ℕ). 2 ^ k) same, pow_double (63 - suc l))

pub parent-InTree : (l o : ℕ) → InTree l o → l < 63 → InTree (suc l) (o / 2)
parent-InTree l o t below =
    let same : 63 - l ≡ suc (63 - suc l) = omega arith in
    omega (arith, ap (λ (k : ℕ). 2 ^ k) same, pow_double (63 - suc l))

-- What the kin of a bin `v` are, as equations between the methods.
abbrev pub IsFamily : Bin → Type 0
IsFamily v =
    (parent (left v) ≡ v)
    × (parent (right v) ≡ v)
    × (sibling (left v) ≡ right v)
    × (sibling (right v) ≡ left v)
    × (is_left (left v) ≡ true)
    × (is_right (right v) ≡ true)

IsFamily-node : (l o : ℕ) → InTree (suc l) o → IsFamily (node (suc l) o)
unfolding is_right
IsFamily-node l o t =
    let (tl, tr) = children-InTree l o t in
    let below : l < 63 = omega arith in
    let el = left-node l o t in
    let er = right-node l o t in
    let half : 2 * o / 2 ≡ o = omega arith in
    let half' : (2 * o + 1) / 2 ≡ o = omega arith in
    let next : buddy (2 * o) ≡ 2 * o + 1 = omega arith in
    let prev : buddy (2 * o + 1) ≡ 2 * o = omega arith in
    (
      ap parent el ∙ parent-node l (2 * o) tl below ∙ ap (node (suc l)) half,
      ap parent er ∙ parent-node l (2 * o + 1) tr below ∙ ap (node (suc l)) half',
      ap sibling el ∙ sibling-node l (2 * o) tl below ∙ ap (node l) next ∙ sym er,
      ap sibling er ∙ sibling-node l (2 * o + 1) tr below ∙ ap (node l) prev ∙ sym el,
      ap is_left el ∙ is_left-node l (2 * o) tl below ∙ (ground arith),
      ap (λ (v : Bin). not (is_left v)) er
          ∙ ap not (is_left-node l (2 * o + 1) tr below)
          ∙ (ground arith),
    )

-- Of a bin above the base layer: the parent of either child is the bin itself, the children are
-- siblings of one another, and `is_left` and `is_right` tell them apart.
pub children_laws : (l o : ℕ) → InTree (suc l) o → IsFamily (of_layer (suc l) o)
children_laws l o t = rw (of_layer-node (suc l) o t) (IsFamily-node l o t)

-- `parent` goes one layer up and halves the offset. From ALL, at layer 63, it gives NONE.
pub parent-of_layer : (l o : ℕ) → InTree l o → parent (of_layer l o) ≡ of_layer (suc l) (o / 2)
unfolding of_layer parent
parent-of_layer l o t = elim (dec_lt l 63) [
  | yes below ↦
      rw (of_layer-node l o t, of_layer-node (suc l) (o / 2) (parent-InTree l o t below))
        (parent-node l o t below)
  | no top ↦
      let l_top : l ≡ 63 = omega arith in
      let o_top : o ≡ 0 = omega (arith, ap (λ (k : ℕ). 2 ^ (63 - k)) l_top) in
      rw (l_top, o_top) parent-all
]
  where
    parent-all : parent (of_layer 63 0) ≡ of_layer 64 (0 / 2)
    parent-all = refl

-- The interval of a bin: `base_offset` and `base_length` are its first base bin and its size,
-- `base_left` and `base_right` its first and its last base bin.
pub interval_laws :
    (l o : ℕ)
    → InTree l o
    → let v = of_layer l o in
      (base_offset v ≡ o * 2 ^ l)
      × (base_length v ≡ 2 ^ l)
      × (base_left v ≡ of_layer 0 (base_offset v))
      × (base_right v ≡ of_layer 0 (base_offset v + base_length v - 1))
interval_laws l o t =
    let first : InTree 0 (o * 2 ^ l) =
      (omega arith, omega (arith, node_fits l o t, mul_pow_double o l, pow_double l, pow_pos l)) in
    let last : InTree 0 (o * 2 ^ l + (2 ^ l - 1)) =
      (omega arith, omega (arith, node_fits l o t, mul_pow_double o l, pow_double l, pow_pos l)) in
    let sum : o * 2 ^ l + 2 ^ l - 1 ≡ o * 2 ^ l + (2 ^ l - 1) = omega (arith, pow_pos l) in
    rw (of_layer-node l o t, base_offset-node l o t, base_length-node l o t, sum)
      (
        refl,
        refl,
        base_left-node l o t ∙ sym (of_layer-node 0 (o * 2 ^ l) first),
        base_right-node l o t ∙ sym (of_layer-node 0 (o * 2 ^ l + (2 ^ l - 1)) last),
      )

-- For two bins, `contains` is true exactly if the interval of the second lies in the first's.
pub contains_iff :
    (l o k i : ℕ)
    → InTree l o
    → InTree k i
    → (contains (of_layer l o) (of_layer k i) ≡ true)
      ↔ ((o * 2 ^ l ≤ i * 2 ^ k) × (i * 2 ^ k + 2 ^ k ≤ o * 2 ^ l + 2 ^ l))
contains_iff l o k i t u =
    rw (of_layer-node l o t, of_layer-node k i u) (contains-Within l o k i t u)

abbrev Nested : ℕ → ℕ → ℕ → ℕ → Type 0
Nested l o k i = Within l o k i ⊎ (o * 2 ^ l + 2 ^ l ≤ i * 2 ^ k) ⊎ (i * 2 ^ k + 2 ^ k ≤ o * 2 ^ l)

Nested-below : (d l o i : ℕ) → Nested l o (d + l) i
Nested-below d l o i = elim (dec_lt o (i * 2 ^ d)) [
  | yes p ↦ inr (inl (omega (arith, scaled, mul-le-mul_right (2 ^ l) p)))
  | no p ↦ elim (dec_le (i * 2 ^ d + 2 ^ d) o) [
    | yes q ↦ inr (inr (omega (arith, scaled, pow_add d l, mul-le-mul_right (2 ^ l) q)))
    | no q ↦
        let p' : i * 2 ^ d ≤ o = omega arith in
        let q' : suc o ≤ i * 2 ^ d + 2 ^ d = omega arith in
        inl (
          omega
            (arith, scaled, pow_add d l, mul-le-mul_right (2 ^ l) p', mul-le-mul_right (2 ^ l) q'))
  ]
]
  where
    scaled : i * 2 ^ (d + l) ≡ i * 2 ^ d * 2 ^ l
    scaled = omega (arith, ap (λ (x : ℕ). i * x) (pow_add d l))

Nested-all : (l o k i : ℕ) → l ≤ k → Nested l o k i
Nested-all l o k i h =
    let e : k - l + l ≡ k = omega arith in
    subst (λ (x : ℕ). Nested l o x i) e (Nested-below (k - l) l o i)

-- Two bins of the tree are nested or share no base bin.
pub contains_or_disjoint :
    (l o k i : ℕ)
    → InTree l o
    → InTree k i
    → (contains (of_layer l o) (of_layer k i) ≡ true)
      ⊎ (contains (of_layer k i) (of_layer l o) ≡ true)
      ⊎ (o * 2 ^ l + 2 ^ l ≤ i * 2 ^ k)
      ⊎ (i * 2 ^ k + 2 ^ k ≤ o * 2 ^ l)
contains_or_disjoint l o k i t u = elim (dec_le l k) [
  | yes p ↦ elim (Nested-all l o k i p) [
    | inl w ↦ inr (inl ((contains_iff k i l o u t).1 w))
    | inr (inl a) ↦ inr (inr (inl a))
    | inr (inr b) ↦ inr (inr (inr b))
  ]
  | no p ↦ elim (Nested-all k i l o (omega arith)) [
    | inl w ↦ inl ((contains_iff l o k i t u).1 w)
    | inr (inl a) ↦ inr (inr (inr a))
    | inr (inr b) ↦ inr (inr (inl b))
  ]
]

-- Twisting by a mask keeps the layer, permutes the offsets of that layer by the mask's digits from
-- the layer on, and is undone by twisting again.
pub twisted_laws :
    (l o m : ℕ)
    → InTree l o
    → m < 2 ^ 63
    → (twisted (of_layer l o) m ≡ of_layer l (bit_xor o (m / 2 ^ l)))
      × (twisted (twisted (of_layer l o) m) m ≡ of_layer l o)
twisted_laws l o m t h =
    let t' = twisted-InTree l o m t in
    let once = twisted-node l o m t in
    let e = of_layer-node l o t in
    (
      ap (λ (v : Bin). twisted v m) e
          ∙ once
          ∙ sym (of_layer-node l _ t')
          ∙ ap (λ (x : ℕ). of_layer l (bit_xor o x)) (turn-eq-shift l m h),
      ap (λ (v : Bin). twisted (twisted v m) m) e
          ∙ ap (λ (v : Bin). twisted v m) once
          ∙ twisted-node l (bit_xor o (turn l m)) m t'
          ∙ ap (node l) (xor_cancel o (turn l m))
          ∙ sym e,
    )

shifted_down : (d z o : ℕ) → InTree (d + z) o → layer_shifted (of_layer (d + z) o) z ≡ of_layer d o
shifted_down d z o t =
    let wider : 2 ^ (63 - (d + z)) ≤ 2 ^ (63 - d) =
      pow-le-pow_right {n = 2} (omega arith) (let h : 63 - (d + z) ≤ 63 - d = omega arith in h) in
    rw (of_layer-node (d + z) o t, of_layer-node d o (omega arith, omega arith))
      (layer_shifted-node d z o t)

shifted_up :
    (d l o : ℕ) → InTree l o → layer_shifted (of_layer l o) (suc d + l) ≡ of_layer 0 (o / 2 ^ suc d)
shifted_up d l o t =
    let wide : 2 ^ (63 - l) ≤ 2 ^ 63 =
      pow-le-pow_right {n = 2} (omega arith) (let h : 63 - l ≤ 63 = omega arith in h) in
    let base : InTree 0 (o / 2 ^ suc d) = (omega arith, omega (arith, div-le o (suc d))) in
    rw (of_layer-node l o t, of_layer-node 0 (o / 2 ^ suc d) base)
      (layer_shifted-small d l o t ∙ ap (node 0) (div_double d o))

-- `layer_shifted` by `z`: a bin at layer `z` or above comes down `z` layers at its offset, and a
-- lower one becomes the base bin whose `2 ^ z` old base bins cover it.
pub layer_shifted-of_layer :
    (l o z : ℕ)
    → InTree l o
    → z < 64
    → layer_shifted (of_layer l o) z
      ≡ (if leb z l then of_layer (l - z) o else of_layer 0 (o / 2 ^ (z - l)))
layer_shifted-of_layer l o z t h = elim (dec_le z l) [
  | yes p ↦
      let e : l - z + z ≡ l = omega arith in
      let down = shifted_down (l - z) z o (subst (λ (x : ℕ). InTree x o) (sym e) t) in
      rw (leb-eq_true z l p)
        (subst (λ (x : ℕ). layer_shifted (of_layer x o) z ≡ of_layer (l - z) o) e down)
  | no p ↦
      let d = z - l - 1 in
      let e : suc d + l ≡ z = omega arith in
      let gap : suc d ≡ z - l = omega arith in
      rw (leb-eq_false z l (omega arith)) (
        ap (layer_shifted (of_layer l o)) (sym e)
        ∙ shifted_up d l o t
        ∙ ap (λ (x : ℕ). of_layer 0 (o / 2 ^ x)) gap)
]

-- The methods that change a bin in place compute what the const methods return.
pub in_place_laws :
    (v : Bin) (m z : ℕ)
    → (to_parent v ≡ parent v)
      × (to_left v ≡ left v)
      × (to_right v ≡ right v)
      × (to_sibling v ≡ sibling v)
      × (to_base_left v ≡ base_left v)
      × (to_base_right v ≡ base_right v)
      × (to_twisted v m ≡ twisted v m)
      × (to_layer_shifted v z ≡ layer_shifted v z)
unfolding to_parent parent to_left left to_right right to_sibling sibling to_base_left base_left
    to_base_right base_right to_twisted twisted to_layer_shifted layer_shifted
in_place_laws v m z = (refl, refl, refl, refl, ground arith, ground arith, refl, refl)

-- `bin_sort_on_layer_cmp` of two bins below ALL compares layers, and offsets within a layer.
pub sort_on_layer-of_layer :
    (l o k i : ℕ)
    → InTree l o
    → InTree k i
    → l < 63
    → k < 63
    → sort_on_layer (of_layer l o) (of_layer k i) ≡ some (if l == k then ltb o i else ltb l k)
unfolding sort_on_layer
sort_on_layer-of_layer l o k i t u p q =
    rw
      (
        of_layer-node l o t,
        of_layer-node k i u,
        layer-node l o t,
        layer-node k i u,
        layer_offset-node l o t p,
        layer_offset-node k i u q,
      )
      (ground arith)
