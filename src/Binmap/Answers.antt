-- ===== src/Binmap/Answers.antt =====
-- binmap.cpp: `is_empty(bin)` and `is_filled(bin)` against the set that the tree of cells stands for.
use mathlib.Core.Path.{subst}
use native.Mathlib.Decide.{dec_le, dec_lt}
use native.Mathlib.Nat.{div-lt_iff_lt-mul, mul-le-mul_right}
use libswift.Base.{
  via, and_then_iff, flip_iff, ℕ, suc, ◌+◌, ◌-◌, ◌*◌, ◌/◌, ◌^◌, ◌≤◌, ◌<◌, ◌≡◌, ◌↔◌, ap, sym, ◌∙◌,
  arith, Bool, true, false, Bool-cases, inl, inr, [], ◌∷◌,
}
use libswift.Bits.Fields.{pow_pos}
use libswift.Bits.Tail.{exponent-le, pow_add}
use libswift.Bin.{Bin, contains, of_layer}
use libswift.Bin.Layout.{node, InTree, of_layer-node}
use libswift.Bin.Interval.{Within, contains-Within}
use libswift.Bin.Laws.{contains_or_disjoint}
use libswift.Binmap.Heap.{Binmap, Traced, trace, trace_loop}
use libswift.Binmap.Query.{is_empty_all, is_empty, is_filled}
use libswift.Binmap.Shape.{Half, sub, holds, IsTree, member, member-inside, member-outside}
use libswift.Binmap.Uniform.{IsUniform}
use libswift.Binmap.Ask.{answers}
use libswift.Binmap.Leaf.{leaf_iff}
use libswift.Binmap.Walk.{walk-IsRight}
use libswift.Binmap.Branches.{
  trace_lem, empty_within, empty_above, empty_apart, filled_within, filled_beyond,
}

module _ (s : Binmap) (k : ℕ) (a c : Half) (tree : IsTree s k a c) where
  pub top-InTree : InTree (suc k) 0
  top-InTree = (omega (arith, tree.high), pow_pos (63 - suc k))

  module _ (v : Bool) (l o : ℕ) (t : InTree l o) where
    abbrev Inside : Type 0
    Inside = (0 ≤ o * 2 ^ l) × (o * 2 ^ l + 2 ^ l ≤ 2 ^ suc k)

    member-IsUniform :
        Inside → IsUniform v l o (holds (suc k) (sub 0 a c)) ↔ IsUniform v l o (member k a c)
    member-IsUniform w = (λ f i p q. same i q ∙ f i p q, λ f i p q. sym (same i q) ∙ f i p q)
      where
        same : (i : ℕ) → i < o * 2 ^ l + 2 ^ l → member k a c i ≡ holds (suc k) (sub 0 a c) i
        same i q = member-inside k a c i (omega (arith, w.1))

    first-zero : (d : ℕ) → o * 2 ^ l + 2 ^ l ≤ 2 ^ d * 2 ^ l → o / 2 ^ d ≡ 0
    first-zero d h =
        let small : o < 2 ^ d = elim (dec_lt o (2 ^ d)) [
          | yes p ↦ p
          | no p ↦
              let q : 2 ^ d ≤ o = omega arith in
              absurd (omega (arith, h, mul-le-mul_right (2 ^ l) q, pow_pos l))
        ] in
        let below : o < 1 * 2 ^ d = omega arith in
        let q : o / 2 ^ d < 1 = (div-lt_iff_lt-mul (pow_pos d)).1 below in omega (arith, q)

    within-answers :
        Inside
        → (let at = trace s (node l o) in answers v s (node l o) at.ref at.bin ≡ true)
          ↔ IsUniform v l o (member k a c)
    within-answers w =
        let tall : l ≤ suc k = exponent-le l (suc k) (omega (arith, w.1)) in
        let d = suc k - l in
        let e : d + l ≡ suc k = omega arith in
        let wide : 2 ^ suc k ≡ 2 ^ d * 2 ^ l = ap (λ (x : ℕ). 2 ^ x) (sym e) ∙ pow_add d l in
        let first = first-zero d (omega (arith, w.1, wide)) in
        let right =
          walk-IsRight s v l o t d 64 k 0 (0 ∷ []) a c e (omega (arith, tree.high))
            (subst (λ (x : ℕ). InTree (suc k) x) (sym first) top-InTree)
            (
              tree.left, tree.right, tree.left_deep, tree.right_deep, tree.left_packed,
              tree.right_packed,
            ) in
        let start : node (suc k) (o / 2 ^ d) ≡ s.root_bin =
          ap (node (suc k)) first ∙ sym tree.root in
        and_then_iff
          (via
            (ap (λ (at : Traced). answers v s (node l o) at.ref at.bin)
              (trace_lem s (node l o)
                ∙ ap (λ (x : Bin). trace_loop 64 s (node l o) 0 x (0 ∷ [])) (sym start)))
            right)
          (flip_iff (member-IsUniform w))

    pub root_contains : (contains s.root_bin (node l o) ≡ true) ↔ Inside
    root_contains =
        let i = contains-Within (suc k) 0 l o top-InTree t in
        via (ap (λ (x : Bin). contains x (node l o)) tree.root)
          (λ e. omega (arith, i.0 e), λ w. i.1 (omega (arith, w)))

    pub covers_root : (contains (node l o) s.root_bin ≡ true) ↔ Within (suc k) 0 l o
    covers_root =
        let i = contains-Within l o (suc k) 0 t top-InTree in
        via (ap (contains (node l o)) tree.root) i

  outside : (l o : ℕ) → 2 ^ suc k ≤ o * 2 ^ l → IsUniform false l o (member k a c)
  outside l o h i p q = member-outside k a c i (omega arith)

  pub reaches_out : (l o : ℕ) → 2 ^ suc k < o * 2 ^ l + 2 ^ l → ¬ IsUniform true l o (member k a c)
  reaches_out l o h f =
      let i = o * 2 ^ l + (2 ^ l - 1) in
      let e = f i (omega arith) (omega (arith, pow_pos l)) in
      ground (arith, member-outside k a c i (omega (arith, pow_pos l)), e)

  -- Two bins that do not contain each other lie apart.
  apart :
      (l o : ℕ)
      → InTree l o
      → contains s.root_bin (node l o) ≡ false
      → contains (node l o) s.root_bin ≡ false
      → 2 ^ suc k ≤ o * 2 ^ l
  apart l o t e f = elim (contains_or_disjoint l o (suc k) 0 t top-InTree) [
    | inl h ↦ absurd (
        ground (
          arith,
          ap (contains (of_layer l o)) root_is ∙ h,
          ap (λ (x : Bin). contains x s.root_bin) (of_layer-node l o t),
          f,
        ))
    | inr (inl h) ↦ absurd (
        ground (
          arith,
          ap (λ (x : Bin). contains x (of_layer l o)) root_is ∙ h,
          ap (contains s.root_bin) (of_layer-node l o t),
          e,
        ))
    | inr (inr (inl h)) ↦ absurd (omega (arith, h, pow_pos l))
    | inr (inr (inr h)) ↦ omega (arith, h)
  ]
    where
      root_is : s.root_bin ≡ of_layer (suc k) 0
      root_is = tree.root ∙ sym (of_layer-node (suc k) 0 top-InTree)

  -- The root's halves are one empty bitmap exactly if the set is empty.
  whole-IsEmpty :
      (l o : ℕ)
      → Within (suc k) 0 l o
      → (is_empty_all s ≡ true) ↔ IsUniform false l o (member k a c)
  unfolding is_empty_all
  whole-IsEmpty l o w =
      and_then_iff
        (leaf_iff s false k 0 0 a c tree.left tree.right tree.left_deep tree.right_deep
          tree.left_packed tree.right_packed)
        (
          λ f i p q.
              sym (member-inside k a c i (omega arith))
              ∙ f i (omega (arith, w)) (omega (arith, w, q)),
          λ f i p q. elim (dec_lt i (2 ^ suc k)) [
            | yes h ↦ member-inside k a c i h ∙ f i (omega arith) (omega arith)
            | no h ↦ member-outside k a c i (omega arith)
          ],
        )

  -- For a packed tree of cells, `is_empty(bin)` is true exactly if no base bin under the bin is in the
  -- set that the tree stands for. The bin may reach beyond the root, or lie outside of it.
  pub is_empty_iff :
      (l o : ℕ)
      → InTree l o
      → (is_empty s (of_layer l o) ≡ true) ↔ IsUniform false l o (member k a c)
  is_empty_iff l o t =
      via (ap (is_empty s) (of_layer-node l o t))
        (elim (Bool-cases (contains s.root_bin (node l o))) [
          | inl e ↦
              via (empty_within s (node l o) e)
                (within-answers false l o t ((root_contains false l o t).0 e))
          | inr e ↦ elim (Bool-cases (contains (node l o) s.root_bin)) [
            | inl f ↦
                via (empty_above s (node l o) e f)
                  (whole-IsEmpty l o ((covers_root false l o t).0 f))
            | inr f ↦ (λ q. outside l o (apart l o t e f), λ u. empty_apart s (node l o) e f)
          ]
        ])

  -- For a packed tree of cells, `is_filled(bin)` is true exactly if every base bin under the bin is in
  -- the set that the tree stands for.
  pub is_filled_iff :
      (l o : ℕ)
      → InTree l o
      → (is_filled s (of_layer l o) ≡ true) ↔ IsUniform true l o (member k a c)
  is_filled_iff l o t =
      via (ap (is_filled s) (of_layer-node l o t))
        (elim (Bool-cases (contains s.root_bin (node l o))) [
          | inl e ↦
              via (filled_within s (node l o) e)
                (within-answers true l o t ((root_contains true l o t).0 e))
          | inr e ↦
              let beyond : 2 ^ suc k < o * 2 ^ l + 2 ^ l =
                elim (dec_le (o * 2 ^ l + 2 ^ l) (2 ^ suc k)) [
                  | yes p ↦
                      absurd (ground (arith, e, (root_contains true l o t).1 (omega arith, p)))
                  | no p ↦ omega arith
                ] in
              (
                λ q. absurd (ground (arith, q, filled_beyond s (node l o) e)),
                λ u. absurd (reaches_out l o beyond u),
              )
        ])
