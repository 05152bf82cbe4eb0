-- ===== src/Binmap/Restructure.antt =====
-- binmap.cpp: how the tree of cells changes its form: a higher root, cells that give way to a bitmap,
-- and new cells below a bitmap.
use libswift.Base.{
  ℕ, zero, suc, ◌-◌, Bool, true, false, not, ◌&&◌, ◌||◌, List, [], ◌∷◌, ltb, ◌==◌, if◌then◌else◌,
}
use libswift.Base.Int.{ℤ, pos}
use libswift.Bin.{Bin, contains, layer}
use libswift.Bin.Steps.{to_left, to_right, to_parent}
use libswift.Binmap.Bitmap.{bitmap_empty}
use libswift.Binmap.Heap.{
  Cell, Binmap, root_ref, put, take_cell, reserve_cells, alloc_cell, free_cell, Traced,
}

-- `extend_root`: a uniform root stays one cell, another one moves down into a new cell.
unfoldable pub extend_root : (ℕ → Bool) → Binmap → Bool × Binmap
unfolding alloc_cell to_parent
extend_root room s =
    let c = s.cell root_ref in
    let (ref, s1) = alloc_cell room s in
    let moved = put ref (s1.cell root_ref) s1 in
    let top : Cell = record (moved.cell root_ref) {
      is_left_ref = true;
      is_right_ref = false;
      left = ref;
      right = bitmap_empty;
    } in
    if not c.is_left_ref && not c.is_right_ref && c.left == c.right
    then (
      true,
      record (put root_ref (record c { right = bitmap_empty }) s) {
        root_bin = to_parent s.root_bin;
      },
    )
    else if ref == root_ref
    then (false, s1)
    else (true, record (put root_ref top moved) { root_bin = to_parent s.root_bin })

-- `do … while (!root_bin_.contains(bin))`: each round takes the root one layer up, so 64 suffice.
unfoldable pub extend_to : ℕ → (ℕ → Bool) → Bin → Binmap → Bool × Binmap
unfolding extend_root contains
extend_to zero room bin s = (contains s.root_bin bin, s)
extend_to (suc fuel) room bin s =
    let (good, s1) = extend_root room s in
    let rest = extend_to fuel room bin s1 in
    if contains s.root_bin bin then (true, s) else if not good then (false, s1) else rest

-- A half of a cell that becomes a bitmap again.
abbrev pub cut_left : ℕ → Cell → Cell
cut_left bitmap c = record c { is_left_ref = false; left = bitmap }

abbrev pub cut_right : ℕ → Cell → Cell
cut_right bitmap c = record c { is_right_ref = false; right = bitmap }

-- The end of `pack_cells`: the child `par_ref` of `ref` gives way to the bitmap.
unfoldable pub pack_into : ℕ → ℕ → ℕ → Binmap → Binmap
unfolding free_cell
pack_into bitmap ref par_ref s =
    let c = s.cell ref in
    free_cell 64 par_ref (
      put ref (if c.is_left_ref && c.left == par_ref then cut_left bitmap c else cut_right bitmap c)
        s)

-- Its loop, up from `par_ref` while the other half of the cell is the same bitmap.
unfoldable pub pack_loop : ℕ → ℕ → List ℕ → Binmap → Binmap
unfolding pack_into
pack_loop bitmap par_ref [] s = s
pack_loop bitmap par_ref (ref ∷ above) s =
    let c = s.cell ref in
    let rest = pack_loop bitmap ref above s in
    let stay =
      if not c.is_left_ref
      then not (c.left == bitmap)
      else if not c.is_right_ref
      then not (c.right == bitmap)
      else true in
    if stay || ref == root_ref then pack_into bitmap ref par_ref s else rest

-- `pack_cells`, on the history with its last reference first.
unfoldable pub pack_cells : List ℕ → Binmap → Binmap
unfolding pack_loop
pack_cells [] s = s
pack_cells (ref ∷ above) s =
    let c = s.cell ref in
    if ref == root_ref
    then s
    else if c.is_left_ref || c.is_right_ref || not (c.left == c.right)
    then s
    else pack_loop c.left ref above s

-- The loop that makes cells on the way from `cur_bin` to `pre_bin`, with the bitmap in each half.
unfoldable pub unpack_loop : ℕ → ℕ → Bin → ℕ → Bin → Binmap → ℕ × Binmap
unfolding take_cell to_left to_right
unpack_loop zero bm pre_bin cur_ref cur_bin s = (cur_ref, s)
unpack_loop (suc fuel) bm pre_bin cur_ref cur_bin s =
    let (ref, s1) = take_cell s in
    let fresh = record (s1.cell ref) {
      is_left_ref = false;
      is_right_ref = false;
      left = bm;
      right = bm;
    } in
    let s2 = put ref fresh s1 in
    let c = s2.cell cur_ref in
    let left_bin = to_left cur_bin in
    let right_bin = to_right cur_bin in
    let s_left = put cur_ref (record c { is_left_ref = true; left = ref }) s2 in
    let s_right = put cur_ref (record c { is_right_ref = true; right = ref }) s2 in
    let rest_left = unpack_loop fuel bm pre_bin ref left_bin s_left in
    let rest_right = unpack_loop fuel bm pre_bin ref right_bin s_right in
    if ltb pre_bin cur_bin
    then (if left_bin == pre_bin then (ref, s_left) else rest_left)
    else if right_bin == pre_bin
    then (ref, s_right)
    else rest_right

-- `cur_bin.layer() - pre_bin.layer()`
layer_gap : ℤ → ℤ → ℕ
layer_gap (pos a) (pos b) = a - b
layer_gap _ _ = 0

unfoldable pub unpack : (ℕ → Bool) → ℕ → Bin → Traced → Binmap → Bool × ℕ × Binmap
unfolding reserve_cells unpack_loop layer_gap layer
unpack room bm pre_bin at s =
    let (good, s1) = reserve_cells room (layer_gap (layer at.bin) (layer pre_bin)) s in
    let done = unpack_loop 64 bm pre_bin at.ref at.bin s1 in
    if good then (true, done.0, done.1) else (false, at.ref, s1)
