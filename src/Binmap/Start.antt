-- ===== src/Binmap/Start.antt =====
-- binmap.cpp: the constructor.
use libswift.Base.{ℕ, ◌%◌, ◌≡◌, refl, ap, sym, ◌∙◌, arith, Bool, true, false, List, [], inl, inr}
use mathlib.Core.Path.{subst}
use libswift.Binmap.Heap.{Binmap, blank, grow, root_ref, alloc_cell, new_binmap}
use libswift.Binmap.Digits.{digit, all_digits_to}
use libswift.Binmap.Shape.{bits, IsTree, member}
use libswift.Binmap.Pool.{IsPool}
use libswift.Binmap.Reserve.{
  attempt, reserve_cells-lem, allocated, alloc_cell-lem, alloc_cell-IsAllocated,
}

abbrev bare : Binmap
bare = record {
  cell = λ i. blank;
  cells_number = 0;
  allocated_cells_number = 0;
  free_top = root_ref;
  root_bin = 63;
}

bare-IsPool : IsPool bare []
bare-IsPool = record { chain = tt; below = tt; count = refl; fits = omega arith }

new_binmap-lem : (room : ℕ → Bool) → new_binmap room ≡ (alloc_cell room bare).1
unfolding new_binmap
new_binmap-lem room = refl

-- Only the room for the first 16 cells matters.
roomy : (room : ℕ → Bool) → room 16 ≡ true → new_binmap room ≡ new_binmap (λ n. true)
roomy room e =
    new_binmap-lem room
    ∙ ap (λ (r : ℕ × Binmap). r.1) (alloc_cell-lem room bare)
    ∙ ap (λ (r : Bool × Binmap). (allocated r.0 r.1).1)
        (reserve_cells-lem room 1 bare
          ∙ ap (λ (b : Bool). attempt true false false b bare (grow 16 bare)) e
          ∙ sym (reserve_cells-lem (λ n. true) 1 bare))
    ∙ ap (λ (r : ℕ × Binmap). r.1) (sym (alloc_cell-lem (λ n. true) bare))
    ∙ sym (new_binmap-lem (λ n. true))

started-IsTree : IsTree (new_binmap (λ n. true)) 5 (bits 0) (bits 0)
unfolding new_binmap
started-IsTree = record {
  root = refl;
  low = omega arith;
  high = omega arith;
  left = (refl, refl, omega arith);
  right = (refl, refl, omega arith);
  left_deep = omega arith;
  right_deep = omega arith;
  left_packed = tt;
  right_packed = tt;
}

member-nothing : (i : ℕ) → member 5 (bits 0) (bits 0) i ≡ false
member-nothing i =
    let none_there : digit 0 (i % 32) ≡ false =
      all_digits_to false 32 0 refl (i % 32) (omega arith) in
    ground (arith, none_there)

new_binmap-IsPool : (room : ℕ → Bool) → (xs : List ℕ) × IsPool (new_binmap room) xs
new_binmap-IsPool room =
    subst (λ (t : Binmap). (xs : List ℕ) × IsPool t xs) (sym (new_binmap-lem room))
      (elim (alloc_cell-IsAllocated room bare [] bare-IsPool) [
        | inl (stuck, root, same) ↦ ([], subst (λ (t : Binmap). IsPool t []) (sym same) bare-IsPool)
        | inr (able, value, was_free, others, (ys, pool, apart)) ↦ (ys, pool)
      ])

-- Where there is room for the first 16 cells, the constructor makes a packed tree of cells that
-- stands for the empty set, with a free list that holds exactly the cells not allocated.
pub new_binmap-IsTree :
    (room : ℕ → Bool)
    → room 16 ≡ true
    → IsTree (new_binmap room) 5 (bits 0) (bits 0)
      × ((i : ℕ) → member 5 (bits 0) (bits 0) i ≡ false)
      × ((xs : List ℕ) × IsPool (new_binmap room) xs)
new_binmap-IsTree room e = (
  subst (λ (t : Binmap). IsTree t 5 (bits 0) (bits 0)) (sym (roomy room e)) started-IsTree,
  member-nothing,
  new_binmap-IsPool room,
)
