-- ===== src/Binmap/Rounds.antt =====
-- One round of the loop of `trace`: it stops at the target or above a bitmap, and goes on elsewhere.
use libswift.Base.{
  ℕ, suc, ◌<◌, ◌≡◌, refl, arith, true, false, ltb-eq_true, ltb-eq_false, ==_iff, ==-eq_false, List,
  ◌∷◌,
}
use libswift.Bin.{Bin}
use libswift.Binmap.Heap.{Binmap, trace_loop}
use libswift.Bin.Steps.{to_left, to_right}

module _ (s : Binmap) (fuel : ℕ) (target : Bin) (p : ℕ) where
  pub stops_here :
      (hist : List ℕ)
      → trace_loop (suc fuel) s target p target hist
        ≡ record { ref = p; bin = target; history = hist }
  unfolding trace_loop
  stops_here hist = rw ((==_iff target target).1 refl) refl

  module _ (bin : Bin) (hist : List ℕ) where
    pub goes_left :
        target < bin
        → (s.cell p).is_left_ref ≡ true
        → trace_loop (suc fuel) s target p bin hist
          ≡ trace_loop fuel s target (s.cell p).left (to_left bin) ((s.cell p).left ∷ hist)
    unfolding trace_loop
    goes_left h e =
        rw (==-eq_false target bin (λ q. absurd (omega arith)), ltb-eq_true _ _ h, e) refl

    pub stops_left :
        target < bin
        → (s.cell p).is_left_ref ≡ false
        → trace_loop (suc fuel) s target p bin hist ≡ record { ref = p; bin = bin; history = hist }
    unfolding trace_loop
    stops_left h e =
        rw (==-eq_false target bin (λ q. absurd (omega arith)), ltb-eq_true _ _ h, e) refl

    pub goes_right :
        bin < target
        → (s.cell p).is_right_ref ≡ true
        → trace_loop (suc fuel) s target p bin hist
          ≡ trace_loop fuel s target (s.cell p).right (to_right bin) ((s.cell p).right ∷ hist)
    unfolding trace_loop
    goes_right h e =
        rw
          (
            ==-eq_false target bin (λ q. absurd (omega arith)),
            ltb-eq_false target bin (omega arith),
            e,
          )
          refl

    pub stops_right :
        bin < target
        → (s.cell p).is_right_ref ≡ false
        → trace_loop (suc fuel) s target p bin hist ≡ record { ref = p; bin = bin; history = hist }
    unfolding trace_loop
    stops_right h e =
        rw
          (
            ==-eq_false target bin (λ q. absurd (omega arith)),
            ltb-eq_false target bin (omega arith),
            e,
          )
          refl
