-- ===== src/Binmap/Pool.antt =====
-- binmap.cpp: the free list of cells, under `_alloc_cell` and when the cells grow.
use mathlib.Core.Path.{subst}
use libswift.Base.{
  ℕ, zero, suc, ◌+◌, ◌-◌, ◌%◌, ◌^◌, ◌≤◌, ◌<◌, ◌≡◌, ◌≢◌, refl, ap, sym, ◌∙◌, arith, Bool, true,
  false, ltb-eq_true, leb-eq_true, leb-eq_false, ◌==◌, ==_iff, ==-eq_false, List, ◌∷◌, length,
  if◌then◌else◌,
}
use libswift.Binmap.Heap.{Cell, Binmap, put, blank, take_cell, grow}
use libswift.Binmap.Chain.{
  Chained, Below, Chained-same, Apart-not, Below-not, run, length-run, run-Below, Below-up,
  run-Apart,
}

-- The cells that are not allocated are the ones in the free list, and a reference reaches every cell.
pub record IsPool (s : Binmap) (xs : List ℕ) : Type 0 where
  pub chain : Chained s.cell xs s.free_top
  pub below : Below s.cells_number xs
  pub count : s.cells_number ≡ s.allocated_cells_number + length xs
  pub fits : s.cells_number ≤ 2 ^ 32

-- A cell other than the one that is written stays.
pub put-other : (s : Binmap) (x y : ℕ) (c : Cell) → y ≢ x → (put x c s).cell y ≡ s.cell y
put-other s x y c n = rw (==-eq_false y x n) refl

pub put-same : (s : Binmap) (x : ℕ) (c : Cell) → (put x c s).cell x ≡ c
put-same s x c = rw ((==_iff x x).1 refl) refl

-- `_alloc_cell` takes the first free cell off the list; the cells behind it stay free, and every
-- other cell stays as it is.
pub take_cell-IsPool :
    (s : Binmap) (x : ℕ) (xs : List ℕ)
    → IsPool s (x ∷ xs)
    → ((take_cell s).0 ≡ x)
      × IsPool (take_cell s).1 xs
      × ((y : ℕ) → y ≢ x → (take_cell s).1.cell y ≡ s.cell y)
unfolding take_cell
take_cell-IsPool s x xs pool =
    let top = pool.chain.0 in
    let other : (y : ℕ) → y ≢ x → (take_cell s).1.cell y ≡ s.cell y = λ y n.
      put-other s s.free_top y (record (s.cell s.free_top) { is_free = false })
        (λ e. n (e ∙ top)) in
    (
      top,
      record {
        chain =
            Chained-same s.cell (take_cell s).1.cell xs (s.cell s.free_top).left
              (subst (λ (y : ℕ). Chained s.cell xs (s.cell y).left) (sym top) pool.chain.3)
              (λ y n. other y (λ e. Apart-not x y xs pool.chain.2 n (sym e)));
        below = pool.below.1;
        count = omega (arith, pool.count, pool.fits);
        fits = pool.fits;
      },
      other,
    )

module _ (s : Binmap) (new : ℕ) (xs : List ℕ) (pool : IsPool s xs) (h : s.cells_number ≤ new)
    (top : new ≤ 2 ^ 32) where
  pub grow-old : (y : ℕ) → y < s.cells_number → (grow new s).cell y ≡ s.cell y
  unfolding grow
  grow-old y k = rw (leb-eq_false s.cells_number y k) refl

  grow-new :
      (y : ℕ)
      → s.cells_number ≤ y
      → y < new
      → (grow new s).cell y ≡ record blank {
        left = if y == new - 1 then s.free_top else (y + 1) % 2 ^ 32;
        is_free = true;
      }
  unfolding grow
  grow-new y k l = rw (leb-eq_true s.cells_number y k, ltb-eq_true y new l) refl

  grow-Chained :
      (d i : ℕ)
      → i + suc d ≡ new
      → s.cells_number ≤ i
      → Chained (grow new s).cell (run (suc d) i xs) i
  unfolding run
  grow-Chained zero i e k =
      let at = grow-new i k (omega arith) in
      let last : ((grow new s).cell i).left ≡ s.free_top =
        ap (λ (y : Cell). y.left) at
        ∙ ap (λ (b : Bool). if b then s.free_top else (i + 1) % 2 ^ 32)
            ((==_iff i (new - 1)).1 (omega arith)) in
      (
        refl,
        ap (λ (y : Cell). y.is_free) at,
        run-Apart 0 (i + 1) i s.cells_number xs (omega arith) k pool.below,
        subst (Chained (grow new s).cell xs) (sym last) (
            Chained-same s.cell (grow new s).cell xs s.free_top pool.chain
              (λ x n. grow-old x (Below-not s.cells_number x xs pool.below n))),
      )
  grow-Chained (suc d) i e k =
      let at = grow-new i k (omega arith) in
      let next : ((grow new s).cell i).left ≡ i + 1 =
        ap (λ (y : Cell). y.left) at
        ∙ ap (λ (b : Bool). if b then s.free_top else (i + 1) % 2 ^ 32)
            (==-eq_false i (new - 1) (λ q. absurd (omega (arith, q))))
        ∙ omega arith in
      (
        refl,
        ap (λ (y : Cell). y.is_free) at,
        run-Apart (suc d) (i + 1) i s.cells_number xs (omega arith) k pool.below,
        subst (Chained (grow new s).cell (run (suc d) (i + 1) xs)) (sym next)
            (grow-Chained d (i + 1) (omega arith) (omega arith)),
      )

  pub grow-IsPool :
      s.cells_number < new
      → s.cells_number < 2 ^ 32
      → IsPool (grow new s) (run (new - s.cells_number) s.cells_number xs)
  unfolding grow
  grow-IsPool more low =
      let d = new - s.cells_number - 1 in
      let e : suc d ≡ new - s.cells_number = omega arith in
      let first : s.cells_number ≡ s.cells_number % 2 ^ 32 = omega arith in
      record {
        chain =
            subst (Chained (grow new s).cell (run (new - s.cells_number) s.cells_number xs)) first (
              subst (λ (x : ℕ). Chained (grow new s).cell (run x s.cells_number xs) s.cells_number)
                e (grow-Chained d s.cells_number (omega arith) (omega arith)));
        below =
            run-Below (new - s.cells_number) s.cells_number new xs (omega arith)
              (Below-up s.cells_number new xs h pool.below);
        count = omega (arith, pool.count, length-run (new - s.cells_number) s.cells_number xs);
        fits = top;
      }
