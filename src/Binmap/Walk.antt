-- ===== src/Binmap/Walk.antt =====
-- `is_empty` and `is_filled` from the cell on where the walk of `trace` stops.
use mathlib.Core.Path.{subst}
use native.Mathlib.Decide.{ℕ_discrete}
use libswift.Base.{
  via, and_then_iff, ℕ, zero, suc, ◌+◌, ◌/◌, ◌%◌, ◌^◌, ◌≤◌, ◌<◌, ◌≡◌, ◌↔◌, ap, sym, ◌∙◌, arith,
  Bool, true, false, Bool-cases, inl, inr, ltb-eq_true, ltb-eq_false, List, ◌∷◌,
}
use libswift.Bits.Fields.{div_double}
use libswift.Bin.{Bin}
use libswift.Bin.Layout.{node, InTree}
use libswift.Binmap.Heap.{Binmap, Traced, trace_loop}
use libswift.Binmap.Query.{is_leaf}
use libswift.Binmap.Digits.{digit, fill}
use libswift.Binmap.Shape.{Half, bits, sub, holds, Stores, IsDeep, IsPacked}
use libswift.Binmap.Uniform.{IsUniform}
use libswift.Bin.Family.{left-node, right-node}
use libswift.Bin.Laws.{children-InTree}
use libswift.Bin.Steps.{to_left, to_right}
use libswift.Bin.{left, right}
use libswift.Binmap.Ask.{
  answers, half_answers, answers-left, answers-right, answers-here, half_answers_iff, high-true,
}
use libswift.Binmap.Sides.{above, sides}
use libswift.Binmap.Rounds.{stops_here, goes_left, stops_left, goes_right, stops_right}
use libswift.Binmap.Leaf.{IsDeep-le, IsDeep-sub, leaf_iff, side-left, side-right}

module _ (s : Binmap) (v : Bool) where
  module _ (l o : ℕ) (t : InTree l o) where
    -- What the walk from a cell on answers.
    abbrev answer_from : ℕ → ℕ → Bin → List ℕ → Bool
    answer_from fuel p bin hist =
        let at = trace_loop fuel s (node l o) p bin hist in answers v s (node l o) at.ref at.bin

    -- The walk is right at the cell `p`, with halves at layer `k`, `d` layers above the target.
    abbrev IsRight : ℕ → ℕ → ℕ → ℕ → List ℕ → Half → Half → Type 0
    IsRight fuel d k p hist a c =
        (answer_from fuel p (node (suc k) (o / 2 ^ d)) hist ≡ true)
        ↔ IsUniform v l o (holds (suc k) (sub p a c))

    abbrev Held : ℕ → ℕ → Half → Half → Type 0
    Held p k a c =
        Stores s.cell (s.cell p).is_left_ref (s.cell p).left a
        × Stores s.cell (s.cell p).is_right_ref (s.cell p).right c
        × IsDeep k a
        × IsDeep k c
        × IsPacked a
        × IsPacked c

    walk-here :
        (fuel k p : ℕ) (hist : List ℕ) (a c : Half)
        → l ≡ suc k
        → Held p k a c
        → IsRight (suc fuel) 0 k p hist a c
    walk-here fuel k p hist a c e (sa, sc, da, dc, pa, pc) =
        let whole : node (suc k) (o / 2 ^ 0) ≡ node l o =
          ap (λ (x : ℕ). node x (o / 2 ^ 0)) (sym e)
          ∙ ap (node l) (let z : o / 2 ^ 0 ≡ o = omega arith in z) in
        let tall : 6 ≤ l = omega (arith, IsDeep-le k a da) in
        let leaf = leaf_iff s v k o p a c sa sc da dc pa pc in
        via
          (ap (λ (x : Bin). answer_from (suc fuel) p x hist) whole
            ∙ ap (λ (at : Traced). answers v s (node l o) at.ref at.bin)
                (stops_here s fuel (node l o) p hist)
            ∙ answers-here v s (node l o) p (high-true l o t tall))
          (subst
            (λ (x : ℕ).
              (is_leaf (s.cell p) (fill v 32) ≡ true) ↔ IsUniform v x o (holds (suc k) (sub p a c)))
            (sym e) leaf)

    lower :
        (d k : ℕ)
        → d + l ≡ suc k
        → InTree (suc (d + l)) (o / 2 ^ suc d)
        → InTree (suc k) (o / 2 ^ d)
    lower d k e up =
        let kids = children-InTree (d + l) (o / 2 ^ suc d) up in
        let half : o / 2 ^ suc d ≡ o / 2 ^ d / 2 = sym (div_double d o) in
        subst (λ (x : ℕ). InTree x (o / 2 ^ d)) e
          (omega (arith, kids.0), omega (arith, half, kids.0, kids.1))

    module _ (d : ℕ) (up : InTree (suc (d + l)) (o / 2 ^ suc d)) where
      half_of : o / 2 ^ suc d ≡ o / 2 ^ d / 2
      half_of = sym (div_double d o)

      left_bin : o / 2 ^ d % 2 ≡ 0 → to_left (above d l o) ≡ node (d + l) (o / 2 ^ d)
      unfolding to_left left
      left_bin even =
          left-node (d + l) (o / 2 ^ suc d) up ∙ ap (node (d + l)) (omega (arith, half_of))

      right_bin : o / 2 ^ d % 2 ≡ 1 → to_right (above d l o) ≡ node (d + l) (o / 2 ^ d)
      unfolding to_right right
      right_bin odd =
          right-node (d + l) (o / 2 ^ suc d) up ∙ ap (node (d + l)) (omega (arith, half_of))

      module _ (fuel : ℕ) (hist : List ℕ) (p : ℕ)
          (ih : (k q : ℕ) (back : List ℕ) (a c : Half)
            → d + l ≡ suc k
            → Held q k a c
            → IsRight fuel d k q back a c) where
        abbrev step : Traced
        step = trace_loop (suc fuel) s (node l o) p (above d l o) hist

        abbrev result : Traced → Bool
        result at = answers v s (node l o) at.ref at.bin

        -- A half below which the walk goes on.
        deeper :
            (word : ℕ) (h : Half) (flag : Bool)
            → Stores s.cell flag word h
            → IsDeep (d + l) h
            → IsPacked h
            → flag ≡ true
            → (result (trace_loop fuel s (node l o) word (node (d + l) (o / 2 ^ d)) (word ∷ hist))
                ≡ true)
              ↔ IsUniform v l o (holds (d + l) h)
        deeper word (bits b) flag st dp pk on = absurd (ground (arith, st.0, on))
        deeper word (sub r a c) flag st dp pk on =
            let (k, e, da, dc) = IsDeep-sub (d + l) r a c dp in
            let right = ih k r (r ∷ hist) a c e (st.2, st.3, da, dc, pk.0, pk.1) in
            subst
              (λ (w : ℕ).
                (result (trace_loop fuel s (node l o) w (node (d + l) (o / 2 ^ d)) (w ∷ hist))
                  ≡ true)
                ↔ IsUniform v l o (holds (d + l) (sub r a c)))
              (sym st.1)
              (subst
                (λ (x : ℕ).
                  (result (trace_loop fuel s (node l o) r (node x (o / 2 ^ d)) (r ∷ hist)) ≡ true)
                  ↔ IsUniform v l o (holds x (sub r a c)))
                (sym e) right)

        -- A half at which the walk stops.
        bitmap :
            (word : ℕ) (h : Half) (flag : Bool)
            → Stores s.cell flag word h
            → flag ≡ false
            → (half_answers v word (node l o) ≡ true) ↔ IsUniform v l o (holds (d + l) h)
        bitmap word (sub r a c) flag st off = absurd (ground (arith, st.0, off))
        bitmap word (bits b) flag st off =
            subst
              (λ (w : ℕ).
                (half_answers v w (node l o) ≡ true) ↔ IsUniform v l o (λ i. digit b (i % 32)))
              (sym st.1) (half_answers_iff l o t v b st.2)

        walk-step :
            (a c : Half)
            → Held p (d + l) a c
            → (result step ≡ true) ↔ IsUniform v l o (holds (suc (d + l)) (sub p a c))
        walk-step a c (sa, sc, da, dc, pa, pc) = elim (ℕ_discrete (o / 2 ^ d % 2) 0) [
          | yes even ↦
              let lt = (sides d l o).0 even in
              and_then_iff
                (elim (Bool-cases (s.cell p).is_left_ref) [
                  | inl on ↦
                      via
                        (ap result (goes_left s fuel (node l o) p (above d l o) hist lt on)
                          ∙ ap
                              (λ (x : Bin). result (
                                trace_loop fuel s (node l o) (s.cell p).left x
                                  ((s.cell p).left ∷ hist)))
                              (left_bin even))
                        (deeper (s.cell p).left a (s.cell p).is_left_ref sa da pa on)
                  | inr off ↦
                      via
                        (ap result (stops_left s fuel (node l o) p (above d l o) hist lt off)
                          ∙ answers-left v s (node l o) (above d l o) p (ltb-eq_true _ _ lt))
                        (bitmap (s.cell p).left a (s.cell p).is_left_ref sa off)
                ])
                (side-left s v d l o p a c even)
          | no odd' ↦
              let odd : o / 2 ^ d % 2 ≡ 1 = omega arith in
              let lt = (sides d l o).1 odd in
              and_then_iff
                (elim (Bool-cases (s.cell p).is_right_ref) [
                  | inl on ↦
                      via
                        (ap result (goes_right s fuel (node l o) p (above d l o) hist lt on)
                          ∙ ap
                              (λ (x : Bin). result (
                                trace_loop fuel s (node l o) (s.cell p).right x
                                  ((s.cell p).right ∷ hist)))
                              (right_bin odd))
                        (deeper (s.cell p).right c (s.cell p).is_right_ref sc dc pc on)
                  | inr off ↦
                      via
                        (ap result (stops_right s fuel (node l o) p (above d l o) hist lt off)
                          ∙ answers-right v s (node l o) (above d l o) p
                              (ltb-eq_false (node l o) (above d l o) (omega arith))
                              (ltb-eq_true _ _ lt))
                        (bitmap (s.cell p).right c (s.cell p).is_right_ref sc off)
                ])
                (side-right s v d l o p a c odd)
        ]

    -- The walk down to the target, or to a bitmap above it.
    pub walk-IsRight :
        (d fuel k p : ℕ) (hist : List ℕ) (a c : Half)
        → d + l ≡ suc k
        → d < fuel
        → InTree (suc k) (o / 2 ^ d)
        → Held p k a c
        → IsRight fuel d k p hist a c
    walk-IsRight d zero k p hist a c e h up held = absurd (omega (arith, h))
    walk-IsRight zero (suc fuel) k p hist a c e h up held =
        walk-here fuel k p hist a c (omega (arith, e)) held
    walk-IsRight (suc d) (suc fuel) k p hist a c e h up held =
        let same : d + l ≡ k = omega (arith, e) in
        let ups : InTree (suc (d + l)) (o / 2 ^ suc d) =
          subst (λ (x : ℕ). InTree (suc x) (o / 2 ^ suc d)) (sym same) up in
        let helds : Held p (d + l) a c = subst (λ (x : ℕ). Held p x a c) (sym same) held in
        let step =
          walk-step d ups fuel hist p
            (λ k' q back a' c' e' held'.
              walk-IsRight d fuel k' q back a' c' e' (omega (arith, h)) (lower d k' e' ups) held')
            a c helds in
        subst (λ (x : ℕ). IsRight (suc fuel) (suc d) x p hist a c) same step
