-- ===== src/Bin/Layer.antt =====
-- `layer`, `layer_offset` and `decompose`, and that every number but NONE is a bin of the tree.
use native.Mathlib.Nat.{pow-le-pow_right, lt_of_mul-lt-mul_right}
use native.Mathlib.Decide.{dec_le, dec_lt, ℕ_discrete}
use mathlib.Core.WellFounded
use libswift.Base.{
  ℕ, suc, ◌+◌, ◌-◌, ◌*◌, ◌/◌, ◌%◌, ◌^◌, ◌≤◌, ◌<◌, ◌≡◌, refl, ap, sym, arith, true, none, some, ◌==◌,
  ==_iff, holds_below, holds_below_sound, ltb-eq_true, lt_wf, ◌≢◌, ◌∙◌,
}
use libswift.Base.Int.{pos}
use libswift.Bits.Fields.{pow_double, pow_pos, mul_pow_double, div_fields}
use libswift.Bits.Tail.{pow_add}
use libswift.Bin.{Bin, is_none, de_bruijn_layer, layer, layer_offset, decompose, all_bin, of_layer}
use libswift.Bin.Layout.{node, InTree, is_none-node, low_bit-node, of_layer-node}

-- The multiplication and the table find the exponent of each power of two of 64 bits.
de_bruijn_table : holds_below 64 (λ l. de_bruijn_layer (2 ^ l) == l) ≡ true
unfolding holds_below de_bruijn_layer
de_bruijn_table = refl

de_bruijn_layer-pow : (l : ℕ) → l < 64 → de_bruijn_layer (2 ^ l) ≡ l
de_bruijn_layer-pow l h = (==_iff _ l).0 (holds_below_sound 64 _ l de_bruijn_table h)

module _ (l o : ℕ) (t : InTree l o) where
  pub layer-node : layer (node l o) ≡ pos l
  unfolding layer
  layer-node =
      rw (is_none-node l o t, low_bit-node l o t) (ap pos (de_bruijn_layer-pow l (omega arith)))

  head : node l o / 2 ^ suc l ≡ o
  head = div_fields (2 ^ suc l) o (2 ^ l - 1) (omega (arith, pow_double l, pow_pos l))

  pub layer_offset-node : l < 63 → layer_offset (node l o) ≡ some o
  unfolding layer_offset
  layer_offset-node below = rw (layer-node, ltb-eq_true (suc l) 64 (omega arith)) (ap some head)

  pub decompose-node : l < 63 → decompose (node l o) ≡ (pos l, some o)
  unfolding decompose
  decompose-node below = rw (layer-node, ltb-eq_true (suc l) 64 (omega arith), head)

-- `layer_offset` of ALL shifts by 64 places.
pub layer_offset-all : layer_offset all_bin ≡ none
unfolding layer_offset layer is_none de_bruijn_layer
layer_offset-all = refl

-- A positive number is an odd number times a power of two.
abbrev pub Odd : ℕ → Type 0
Odd n = (l : ℕ) × (o : ℕ) × (suc n ≡ o * 2 ^ suc l + 2 ^ l)

Odd-step : (n : ℕ) → ((m : ℕ) → m < n → Odd m) → Odd n
Odd-step n ih = elim (ℕ_discrete (suc n % 2) 1) [
  | yes odd ↦ (0, suc n / 2, omega (arith, pow_double 0))
  | no even ↦
      let m = suc n / 2 - 1 in
      let (l, o, e) = ih m (omega arith) in
      (suc l, o, omega (arith, pow_double l, pow_double (suc l), mul_pow_double o (suc l)))
]

pub Odd-all : (n : ℕ) → Odd n
Odd-all n = WellFounded.induction lt_wf {C = Odd} n Odd-step

-- Every number but NONE is the value of one node of the tree.
pub node_surjective : (v : Bin) → v + 1 < 2 ^ 64 → (l : ℕ) × (o : ℕ) × InTree l o × (v ≡ node l o)
node_surjective v h =
    let (l, o, e) = Odd-all v in
    let low : l ≤ 63 = elim (dec_le l 63) [
      | yes p ↦ p
      | no p ↦ absurd (
          omega (arith, pow-le-pow_right {n = 2} (omega arith) (let q : 64 ≤ l = omega arith in q)))
    ] in
    let same : 63 - l + suc l ≡ 64 = omega arith in
    let fits : o < 2 ^ (63 - l) =
      lt_of_mul-lt-mul_right (2 ^ suc l)
        (omega (arith, pow_pos l, ap (λ (k : ℕ). 2 ^ k) same, pow_add (63 - l) (suc l))) in
    (l, o, (low, fits), omega (arith, pow_pos l))

-- So a bin with a parent is built again from its layer and offset, which `decompose` gives.
pub of_layer-decompose :
    (v : Bin)
    → v + 1 < 2 ^ 64
    → v ≢ all_bin
    → (l : ℕ) × (o : ℕ) × (decompose v ≡ (pos l, some o)) × (of_layer l o ≡ v)
unfolding of_layer
of_layer-decompose v h ne =
    let (l, o, t, e) = node_surjective v h in
    elim (dec_lt l 63) [
      | yes below ↦ (l, o, ap decompose e ∙ decompose-node l o t below, of_layer-node l o t ∙ sym e)
      | no top ↦
          let l_top : l ≡ 63 = omega arith in
          let o_top : o < 1 = omega (arith, ap (λ (k : ℕ). 2 ^ (63 - k)) l_top) in
          absurd (
            ne (
              omega (
                arith,
                ap (λ (k : ℕ). 2 ^ k) l_top,
                ap (λ (k : ℕ). k * 2 ^ suc l) (let z : o ≡ 0 = omega arith in z),
              )))
    ]
