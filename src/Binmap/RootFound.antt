-- ===== src/Binmap/RootFound.antt =====
-- From what is found at a half of the root to what is found in the set.
use native.Mathlib.Decide.{dec_lt, ℕ_discrete}
use libswift.Base.{
  ℕ, suc, ◌-◌, ◌*◌, ◌^◌, ◌<◌, ◌≡◌, ◌⊎◌, ◌↔◌, refl, ap, ◌∙◌, arith, Bool, true, false, not,
  Bool-cases, via, inl, inr, if◌then◌else◌, Option, some,
}
use libswift.Bits.Fields.{pow_pos}
use libswift.Bin.{Bin, left, right, sibling, is_all, none_bin}
use libswift.Bin.Layout.{node, InTree, all_bin-node, second-InTree, is_all-node}
use libswift.Bin.Family.{left-node, right-node, sibling-node}
use libswift.Binmap.Heap.{Binmap}
use libswift.Binmap.Shape.{Half, sub, holds, IsTree, member, member-inside, member-outside}
use libswift.Binmap.Uniform.{IsUniform, halves}
use libswift.Binmap.Leads.{Leads}
use libswift.Binmap.Lift.{lift_left, lift_right}
use libswift.Binmap.Choice.{whole_of, last_of}

-- `r` is a bin all of whose base bins are `v`, and before which none is; or NONE, and none is.
abbrev pub Found : Bool → (ℕ → Bool) → Option Bin → Type 0
Found v p r =
    ((l : ℕ) × (o : ℕ) × InTree l o
      × (r ≡ some (node l o))
      × IsUniform v l o p
      × ((i : ℕ) → i < o * 2 ^ l → p i ≡ not v))
    ⊎ ((r ≡ some none_bin) × ((i : ℕ) → i < 2 ^ 63 → p i ≡ not v))

-- From a half of the root, or the whole root, to the set.
module _ (s : Binmap) (k : ℕ) (a c : Half) (tree : IsTree s k a c) where
  pub top-InTree : InTree (suc k) 0
  top-InTree = (omega (arith, tree.high), pow_pos (63 - suc k))

  pub left_is : left s.root_bin ≡ node k 0
  left_is = ap left tree.root ∙ left-node k 0 top-InTree

  pub right_is : right s.root_bin ≡ node k 1
  right_is = ap right tree.root ∙ right-node k 0 top-InTree

  module _ (v : Bool) (r : Option Bin) where
    whole-Found : Leads v (suc k) 0 (holds (suc k) (sub 0 a c)) r → Found v (member k a c) r
    whole-Found (l, o, e, t, p, q, u, w) = inl (
      l,
      o,
      t,
      e,
      λ i x y. member-inside k a c i (omega arith) ∙ u i x y,
      λ i y. member-inside k a c i (omega (arith, pow_pos l)) ∙ w i (omega arith) y,
    )

    pub left-Found : Leads v k 0 (holds k a) r → Found v (member k a c) r
    left-Found f = whole-Found (lift_left v k 0 0 a c r f)

    pub right-Found :
        IsUniform (not v) k 0 (holds k a) → Leads v k 1 (holds k c) r → Found v (member k a c) r
    right-Found u f = whole-Found (lift_right v k 0 0 a c r u f)

  none-Found :
      IsUniform false k 0 (holds k a)
      → IsUniform false k 1 (holds k c)
      → (i : ℕ) → member k a c i ≡ false
  none-Found f g i = elim (dec_lt i (2 ^ suc k)) [
    | yes h ↦
        member-inside k a c i h ∙ (halves false k 0 0 a c).1 (f, g) i (omega arith) (omega arith)
    | no h ↦ member-outside k a c i (omega arith)
  ]

-- All of the root's base bins are sought.
pub full-Found :
    (v : Bool) (s : Binmap) (k : ℕ) (a c : Half)
    → IsTree s k a c
    → IsUniform v k 0 (holds k a)
    → IsUniform v k 1 (holds k c)
    → Found v (member k a c) (some (whole_of v s.root_bin))
full-Found true s k a c tree f g = whole-Found s k a c tree true _ (
  suc k,
  0,
  ap some tree.root,
  top-InTree s k a c tree,
  omega arith,
  omega arith,
  (halves true k 0 0 a c).1 (f, g),
  λ i x y. absurd (omega arith),
)
full-Found false s k a c tree f g = inl (
  63,
  0,
  (omega arith, omega arith),
  ap some all_bin-node,
  λ i x y. none-Found s k a c tree f g i,
  λ i y. absurd (omega arith),
)

-- None of them is.
pub rest-Found :
    (v : Bool) (s : Binmap) (k : ℕ) (a c : Half)
    → IsTree s k a c
    → IsUniform (not v) k 0 (holds k a)
    → IsUniform (not v) k 1 (holds k c)
    → Found v (member k a c) (some (last_of v s.root_bin))
rest-Found true s k a c tree f g = inr (refl, λ i x. none-Found s k a c tree f g i)
rest-Found false s k a c tree f g = elim (Bool-cases (is_all s.root_bin)) [
  | inl e ↦ rw e (inr (refl, λ i h. inside i (omega (arith, ap (λ (x : ℕ). 2 ^ x) (top e)))))
  | inr e ↦
      let low : suc k < 63 = below e in
      let beside : (if is_all s.root_bin then none_bin else sibling s.root_bin) ≡ node (suc k) 1 =
        ap (λ (b : Bool). if b then none_bin else sibling s.root_bin) e
        ∙ ap sibling tree.root
        ∙ sibling-node (suc k) 0 (top-InTree s k a c tree) low in
      inl (
        suc k,
        1,
        second-InTree (suc k) low,
        ap some beside,
        λ i x y. member-outside k a c i (omega arith),
        λ i y. inside i (omega arith),
      )
]
  where
    inside : (i : ℕ) → i < 2 ^ suc k → member k a c i ≡ true
    inside i h =
        member-inside k a c i h ∙ (halves true k 0 0 a c).1 (f, g) i (omega arith) (omega arith)

    at_top : (is_all s.root_bin ≡ true) ↔ (suc k ≡ 63)
    at_top = via (ap is_all tree.root) (is_all-node (suc k) (omega (arith, tree.high)))

    top : is_all s.root_bin ≡ true → suc k ≡ 63
    top e = at_top.0 e

    below : is_all s.root_bin ≡ false → suc k < 63
    below e = elim (ℕ_discrete (suc k) 63) [
      | yes q ↦ absurd (ground (arith, e, at_top.1 q))
      | no q ↦ omega (arith, tree.high)
    ]
