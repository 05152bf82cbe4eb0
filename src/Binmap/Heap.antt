-- ===== src/Binmap/Heap.antt =====
-- binmap.h and binmap.cpp: the array of cells, its free list, and the walk down the tree of cells.
-- `cell_t` is a union: `free_next_` lies over `left_`, and a half is a bitmap or a reference, so each
-- half is one 32-bit word. `is_free_` is set as the assertions of a debug build set it.
use Prim.Native.Nat.{max}
use libswift.Base.{
  ℕ, zero, suc, ◌+◌, ◌-◌, ◌*◌, ◌/◌, ◌%◌, ◌^◌, Bool, true, false, ◌&&◌, List, [], ◌∷◌, ltb, leb,
  ◌==◌, if◌then◌else◌,
}
use libswift.Word.{add64, sub64}
use libswift.Bin.{Bin, layer_bits}
use libswift.Bin.Steps.{to_left, to_right}

pub record Cell : Type 0 where
  pub left : ℕ
  pub right : ℕ
  pub is_left_ref : Bool
  pub is_right_ref : Bool
  pub is_free : Bool

pub record Binmap : Type 0 where
  pub cell : ℕ → Cell
  pub cells_number : ℕ
  pub allocated_cells_number : ℕ
  pub free_top : ℕ
  pub root_bin : Bin

-- `ROOT_REF`
abbrev pub root_ref : ℕ
root_ref = 0

-- `BITMAP_LAYER_BITS`
abbrev pub bitmap_layer_bits : ℕ
bitmap_layer_bits = 63

unfoldable pub is_high : Bin → Bool
unfolding layer_bits
is_high bin = ltb bitmap_layer_bits (layer_bits bin)

abbrev pub blank : Cell
blank = record { left = 0; right = 0; is_left_ref = false; is_right_ref = false; is_free = false }

-- `cell_[ref] = c`
abbrev pub put : ℕ → Cell → Binmap → Binmap
put ref c s = record s { cell = λ i. if i == ref then c else s.cell i }

-- `_alloc_cell`: the head of the free list.
unfoldable pub take_cell : Binmap → ℕ × Binmap
take_cell s =
    let ref = s.free_top in
    let c = s.cell ref in
    (
      ref,
      record (put ref (record c { is_free = false }) s) {
        free_top = c.left;
        allocated_cells_number = add64 s.allocated_cells_number 1;
      },
    )

-- The new cells are chained in order, and the last one goes on to the old free list. A `ref_t` has
-- 32 bits.
unfoldable pub grow : ℕ → Binmap → Binmap
grow new s =
    let old = s.cells_number in
    record s {
      cell = λ i.
          if leb old i && ltb i new
          then record blank {
            left = if i == new - 1 then s.free_top else (i + 1) % 2 ^ 32;
            is_free = true;
          }
          else s.cell i;
      cells_number = new;
      free_top = old % 2 ^ 32;
    }

-- `reserve_cells`; `room` is whether `realloc` gives so many cells, of 9 bytes each. A `size_t`
-- has 64 bits.
unfoldable pub reserve_cells : (ℕ → Bool) → ℕ → Binmap → Bool × Binmap
unfolding grow
reserve_cells room count s =
    if ltb (sub64 s.cells_number s.allocated_cells_number) count
    then (let new =
          max 16 (max ((2 * s.cells_number) % 2 ^ 64) (add64 s.allocated_cells_number count)) in
        if ltb (new % 2 ^ 32) s.cells_number
        then (false, s)
        else if ltb ((2 ^ 64 - 1) / 9) new
        then (false, s)
        else if room new
        then (true, grow new s)
        else (false, s))
    else (true, s)

-- `alloc_cell`
unfoldable pub alloc_cell : (ℕ → Bool) → Binmap → ℕ × Binmap
unfolding reserve_cells take_cell
alloc_cell room s =
    let (good, s1) = reserve_cells room 1 s in
    let (ref, s2) = take_cell s1 in if good then (ref, put ref blank s2) else (root_ref, s1)

-- `free_cell`, for a subtree no deeper than the fuel.
unfoldable pub free_cell : ℕ → ℕ → Binmap → Binmap
free_cell zero ref s = s
free_cell (suc fuel) ref s =
    let c = s.cell ref in
    let s1 = if c.is_left_ref then free_cell fuel c.left s else s in
    let s2 = if c.is_right_ref then free_cell fuel c.right s1 else s1 in
    record (put ref (record c { is_free = true; left = s2.free_top }) s2) {
      free_top = ref;
      allocated_cells_number = sub64 s2.allocated_cells_number 1;
    }

-- The constructor.
unfoldable pub new_binmap : (ℕ → Bool) → Binmap
unfolding alloc_cell
new_binmap room =
    (alloc_cell room (record {
      cell = λ i. blank;
      cells_number = 0;
      allocated_cells_number = 0;
      free_top = root_ref;
      root_bin = 63;
    })).1

-- Where `trace` stops: the cell, its bin, and the references on the way, the last one first.
pub record Traced : Type 0 where
  pub ref : ℕ
  pub bin : Bin
  pub history : List ℕ

-- The loop of `trace`; it goes down one layer in each round.
unfoldable pub trace_loop : ℕ → Binmap → Bin → ℕ → Bin → List ℕ → Traced
trace_loop zero s target ref bin history = record { ref = ref; bin = bin; history = history }
trace_loop (suc fuel) s target ref bin history =
    let c = s.cell ref in
    let go_left = trace_loop fuel s target c.left (to_left bin) (c.left ∷ history) in
    let go_right = trace_loop fuel s target c.right (to_right bin) (c.right ∷ history) in
    let stop : Traced = record { ref = ref; bin = bin; history = history } in
    if target == bin
    then stop
    else if ltb target bin
    then (if c.is_left_ref then go_left else stop)
    else (if c.is_right_ref then go_right else stop)

unfoldable pub trace : Binmap → Bin → Traced
unfolding trace_loop
trace s target = trace_loop 64 s target root_ref s.root_bin (root_ref ∷ [])
