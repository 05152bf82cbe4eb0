-- ===== src/Binmap/Reserve.antt =====
-- binmap.cpp: the free list of cells, under `reserve_cells` and `alloc_cell`.
use Prim.Native.Nat.{max}
use native.Mathlib.Decide.{dec_lt}
use mathlib.Core.Path.{subst}
use libswift.Base.{
  ℕ, ◌+◌, ◌-◌, ◌*◌, ◌/◌, ◌%◌, ◌^◌, ◌≤◌, ◌<◌, ◌≡◌, ◌≢◌, ◌⊎◌, refl, ap, sym, ◌∙◌, arith, Bool, true,
  false, inl, inr, ltb, List, [], ◌∷◌, length, if◌then◌else◌,
}
use libswift.Word.{add64, sub64}
use libswift.Binmap.Heap.{
  Cell, Binmap, put, blank, take_cell, grow, reserve_cells, alloc_cell, root_ref,
}
use libswift.Binmap.Chain.{Apart, Chained-same, Apart-not, run, length-run}
use libswift.Binmap.Pool.{IsPool, put-other, put-same, take_cell-IsPool, grow-old, grow-IsPool}

-- The number of cells that a reservation makes: twice as many, at least 16, and at least what is asked
-- for.
abbrev pub wanted : ℕ → Binmap → ℕ
wanted count s = max 16 (max (2 * s.cells_number) (s.allocated_cells_number + count))

-- There are too few free cells, and the cells cannot grow: either the new number of cells is beyond
-- the 32 bits of a reference, or there is no memory.
abbrev pub IsStuck : (ℕ → Bool) → ℕ → Binmap → Type 0
IsStuck room count s =
    (s.cells_number < s.allocated_cells_number + count)
    × (2 ^ 32 ≤ wanted count s ⊎ (room (wanted count s) ≡ false))

-- What a reservation of cells leaves: the binmap as it was, where it is stuck, or enough free cells.
abbrev pub IsReserved : (ℕ → Bool) → ℕ → Binmap → Bool × Binmap → Type 0
IsReserved room count s (good, t) =
    ((good ≡ false) × (t ≡ s) × IsStuck room count s)
    ⊎ ((good ≡ true)
        × ¬ IsStuck room count s
        × ((y : ℕ) → y < s.cells_number → t.cell y ≡ s.cell y)
        × ((ys : List ℕ) × IsPool t ys × (count ≤ length ys)))

-- The branches of `reserve_cells`.
abbrev pub attempt : Bool → Bool → Bool → Bool → Binmap → Binmap → Bool × Binmap
attempt few cut too_many fits s t =
    if few
    then (if cut
        then (false, s)
        else if too_many
        then (false, s)
        else if fits
        then (true, t)
        else (false, s))
    else (true, s)

attempt-IsReserved :
    (room : ℕ → Bool) (count : ℕ) (few cut too_many fits : Bool) (s t : Binmap)
    → (few ≡ true → cut ≡ true ⊎ (too_many ≡ true) ⊎ (fits ≡ false) → IsStuck room count s)
    → (few ≡ true
        → cut ≡ false
        → too_many ≡ false
        → fits ≡ true
        → IsReserved room count s (true, t))
    → (few ≡ false → IsReserved room count s (true, s))
    → IsReserved room count s (attempt few cut too_many fits s t)
attempt-IsReserved room count false cut too_many fits s t stuck f g = g refl
attempt-IsReserved room count true true too_many fits s t stuck f g =
    inl (refl, refl, stuck refl (inl refl))
attempt-IsReserved room count true false true fits s t stuck f g =
    inl (refl, refl, stuck refl (inr (inl refl)))
attempt-IsReserved room count true false false true s t stuck f g = f refl refl refl refl
attempt-IsReserved room count true false false false s t stuck f g =
    inl (refl, refl, stuck refl (inr (inr refl)))

-- The same number, as the code computes it.
abbrev pub wanted64 : ℕ → Binmap → ℕ
wanted64 count s =
    max 16 (max ((2 * s.cells_number) % 2 ^ 64) (add64 s.allocated_cells_number count))

pub reserve_cells-lem :
    (room : ℕ → Bool) (count : ℕ) (s : Binmap)
    → reserve_cells room count s
      ≡ attempt
          (ltb (sub64 s.cells_number s.allocated_cells_number) count)
          (ltb (wanted64 count s % 2 ^ 32) s.cells_number)
          (ltb ((2 ^ 64 - 1) / 9) (wanted64 count s))
          (room (wanted64 count s))
          s
          (grow (wanted64 count s) s)
unfolding reserve_cells
reserve_cells-lem room count s = refl

module _ (room : ℕ → Bool) (count : ℕ) (s : Binmap) (xs : List ℕ) (pool : IsPool s xs)
    (small : count ≤ 2 ^ 31) where
  wanted64-eq : wanted64 count s ≡ wanted count s
  wanted64-eq = omega (arith, pool.count, pool.fits)

  few_iff :
      (ltb (sub64 s.cells_number s.allocated_cells_number) count ≡ true
        → s.cells_number < s.allocated_cells_number + count)
      × (ltb (sub64 s.cells_number s.allocated_cells_number) count ≡ false
          → s.allocated_cells_number + count ≤ s.cells_number)
  few_iff =
      (λ e. ground (arith, e, pool.count, pool.fits), λ e. ground (arith, e, pool.count, pool.fits))

  -- A number of cells that the reference test lets pass fits the references.
  uncut : ltb (wanted64 count s % 2 ^ 32) s.cells_number ≡ false → wanted count s < 2 ^ 32
  uncut e = ground (arith, e, wanted64-eq, pool.count, pool.fits)

  stuck :
      ltb (sub64 s.cells_number s.allocated_cells_number) count ≡ true
      → (ltb (wanted64 count s % 2 ^ 32) s.cells_number ≡ true)
        ⊎ (ltb ((2 ^ 64 - 1) / 9) (wanted64 count s) ≡ true)
        ⊎ (room (wanted64 count s) ≡ false)
      → IsStuck room count s
  stuck e (inl cut) = (few_iff.0 e, inl (ground (arith, cut, wanted64-eq, pool.count, pool.fits)))
  stuck e (inr (inl much)) =
      (few_iff.0 e, inl (ground (arith, much, wanted64-eq, pool.count, pool.fits)))
  stuck e (inr (inr no_room)) = (few_iff.0 e, inr (ap room (sym wanted64-eq) ∙ no_room))

  unstuck :
      ltb (wanted64 count s % 2 ^ 32) s.cells_number ≡ false
      → room (wanted64 count s) ≡ true
      → ¬ IsStuck room count s
  unstuck e fits (few, inl long) = omega (arith, long, uncut e)
  unstuck e fits (few, inr no_room) =
      absurd (ground (arith, sym fits ∙ ap room wanted64-eq ∙ no_room))

  grown :
      ltb (sub64 s.cells_number s.allocated_cells_number) count ≡ true
      → ltb (wanted64 count s % 2 ^ 32) s.cells_number ≡ false
      → room (wanted64 count s) ≡ true
      → IsReserved room count s (true, grow (wanted64 count s) s)
  grown e cut fits =
      let new = wanted64 count s in
      let same = wanted64-eq in
      let few = few_iff.0 e in
      let up : s.cells_number < new = omega (arith, same, few) in
      let top : new < 2 ^ 32 = omega (arith, same, uncut cut) in
      inr (
        refl,
        unstuck cut fits,
        grow-old s new xs pool (omega (arith, up)) (omega (arith, top)),
        (
          run (new - s.cells_number) s.cells_number xs,
          grow-IsPool s new xs pool (omega (arith, up)) (omega (arith, top)) up
              (omega (arith, up, top)),
          omega (arith, length-run (new - s.cells_number) s.cells_number xs, pool.count, same, few),
        ),
      )

  -- From a free list that holds exactly the cells not allocated, of at most 2 ^ 32 cells, and for at
  -- most 2 ^ 31 cells: `reserve_cells` fails exactly if there are too few free cells and the doubled
  -- number of cells (at least 16, and at least what is asked for) is 2 ^ 32 or more, or there is no
  -- memory for it. Then it changes nothing. Otherwise it leaves such a free list of at least as many
  -- cells as asked for, and every cell that was there as it was.
  pub reserve_cells-IsReserved : IsReserved room count s (reserve_cells room count s)
  reserve_cells-IsReserved =
      subst (IsReserved room count s) (sym (reserve_cells-lem room count s)) (
        attempt-IsReserved room count (ltb (sub64 s.cells_number s.allocated_cells_number) count)
          (ltb (wanted64 count s % 2 ^ 32) s.cells_number)
          (ltb ((2 ^ 64 - 1) / 9) (wanted64 count s)) (room (wanted64 count s)) s
          (grow (wanted64 count s) s) stuck (λ e cut much fits. grown e cut fits)
          (λ e. inr (
            refl,
            λ q. omega (arith, q.0, few_iff.1 e),
            λ y k. refl,
            (xs, pool, omega (arith, few_iff.1 e, pool.count)),
          )))

-- A cell that `alloc_cell` gives: blank, new or free before, and no longer in the free list, while
-- the other cells stay as they are. Where it is stuck it gives `ROOT_REF` and changes nothing.
abbrev pub IsAllocated : (ℕ → Bool) → Binmap → ℕ × Binmap → Type 0
IsAllocated room s (ref, t) =
    (IsStuck room 1 s × (ref ≡ root_ref) × (t ≡ s))
    ⊎ (¬ IsStuck room 1 s
        × (t.cell ref ≡ blank)
        × (s.cells_number ≤ ref ⊎ ((s.cell ref).is_free ≡ true))
        × ((y : ℕ) → y < s.cells_number → y ≢ ref → t.cell y ≡ s.cell y)
        × ((ys : List ℕ) × IsPool t ys × Apart ref ys))

abbrev pub allocated : Bool → Binmap → ℕ × Binmap
allocated good t =
    let (ref, u) = take_cell t in if good then (ref, put ref blank u) else (root_ref, t)

pub alloc_cell-lem :
    (room : ℕ → Bool) (s : Binmap)
    → let r = reserve_cells room 1 s in alloc_cell room s ≡ allocated r.0 r.1
unfolding alloc_cell
alloc_cell-lem room s = refl

taken-IsAllocated :
    (room : ℕ → Bool) (s t : Binmap) (x : ℕ) (xs : List ℕ)
    → ¬ IsStuck room 1 s
    → ((y : ℕ) → y < s.cells_number → t.cell y ≡ s.cell y)
    → IsPool t (x ∷ xs)
    → IsAllocated room s (allocated true t)
taken-IsAllocated room s t x xs able same pool =
    let (at, after, other) = take_cell-IsPool t x xs pool in
    let u = (take_cell t).1 in
    let ref = (take_cell t).0 in
    inr (
      able,
      put-same u ref blank,
      elim (dec_lt x s.cells_number) [
        | yes k ↦ inr (
            ap (λ (y : ℕ). (s.cell y).is_free) at
            ∙ ap (λ (c : Cell). c.is_free) (sym (same x k))
            ∙ pool.chain.1)
        | no k ↦ inl (omega (arith, at))
      ],
      λ y k n. put-other u ref y blank n ∙ other y (λ e. n (e ∙ sym at)) ∙ same y k,
      (
        xs,
        record {
          chain = Chained-same u.cell (put ref blank u).cell xs u.free_top after.chain (λ y n.
              put-other u ref y blank (λ e. Apart-not x y xs pool.chain.2 n (sym (e ∙ at))));
          below = after.below;
          count = after.count;
          fits = after.fits;
        },
        subst (λ (y : ℕ). Apart y xs) (sym at) pool.chain.2,
      ),
    )

allocated-IsAllocated :
    (room : ℕ → Bool) (s : Binmap) (good : Bool) (t : Binmap)
    → IsReserved room 1 s (good, t)
    → IsAllocated room s (allocated good t)
allocated-IsAllocated room s true t (inl (e, same, held)) = absurd (ground (arith, e))
allocated-IsAllocated room s false t (inl (e, same, held)) = inl (held, refl, same)
allocated-IsAllocated room s false t (inr (e, able, same, pool)) = absurd (ground (arith, e))
allocated-IsAllocated room s true t (inr (e, able, same, ([], pool, long))) =
    absurd (omega (arith, long))
allocated-IsAllocated room s true t (inr (e, able, same, (x ∷ xs, pool, long))) =
    taken-IsAllocated room s t x xs able same pool

-- From a free list that holds exactly the cells not allocated, of at most 2 ^ 32 cells: if no cell is
-- free, and the doubled number of cells (at least 16) is 2 ^ 32 or more or there is no memory for it,
-- `alloc_cell` gives `ROOT_REF` and changes nothing. Otherwise it gives a blank cell that is new or
-- was free, takes it off the free list, which again holds exactly the cells not allocated, and leaves
-- the other cells as they are.
pub alloc_cell-IsAllocated :
    (room : ℕ → Bool) (s : Binmap) (xs : List ℕ)
    → IsPool s xs
    → IsAllocated room s (alloc_cell room s)
alloc_cell-IsAllocated room s xs pool =
    subst (IsAllocated room s) (sym (alloc_cell-lem room s))
      (allocated-IsAllocated room s _ _ (reserve_cells-IsReserved room 1 s xs pool (omega arith)))
