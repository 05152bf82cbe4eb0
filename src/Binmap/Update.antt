-- ===== src/Binmap/Update.antt =====
-- binmap.cpp: the operations that change a binmap. Where an allocation fails, the code returns with
-- what it has done so far.
use Prim.Native.Nat.{bit_and, bit_or}
use libswift.Base.{
  zero, suc, ◌-◌, ◌/◌, ◌^◌, ℕ, ◌+◌, Bool, false, not, ◌&&◌, ltb, ◌==◌, if◌then◌else◌,
}
use libswift.Word.{compl64}
use libswift.Bin.{of_layer, Bin, contains, is_none, parent, layer_bits}
use libswift.Bin.Steps.{to_parent}
use libswift.Binmap.Bitmap.{bitmap_empty, bitmap_filled}
use libswift.Binmap.Heap.{Cell, Binmap, root_ref, bitmap_layer_bits, is_high, put, free_cell, trace}
use libswift.Binmap.Query.{bitmap_of, flip}
use libswift.Binmap.Restructure.{extend_to, pack_cells, unpack}

-- A bitmap with the digits of a bin replaced.
abbrev pub mixed : ℕ → ℕ → ℕ → ℕ
mixed old bin_bitmap bitmap = bit_or (bit_and old (flip bin_bitmap)) bitmap

-- `(bin.toUInt() & (~(BITMAP_LAYER_BITS + 1))) | BITMAP_LAYER_BITS`
abbrev pub pre_bin_of : Bin → Bin
pre_bin_of bin = bit_or (bit_and bin (compl64 (bitmap_layer_bits + 1))) bitmap_layer_bits

-- `_set__low_layer_bitmap` in a root that contains the bin.
unfoldable pub set_low_in : (ℕ → Bool) → Bin → ℕ → ℕ → Binmap → Binmap
unfolding trace pack_cells unpack
set_low_in room bin bin_bitmap bitmap s =
    let pre_bin = pre_bin_of bin in
    let at = trace s pre_bin in
    let c = s.cell at.ref in
    let bm = if ltb bin at.bin then c.left else c.right in
    let in_place =
      if ltb bin at.bin
      then record c { left = mixed c.left bin_bitmap bitmap }
      else record c { right = mixed c.right bin_bitmap bitmap } in
    let (good, ref, s1) = unpack room bm pre_bin at s in
    let d = s1.cell ref in
    let below =
      if ltb bin pre_bin
      then record d { left = mixed d.left bin_bitmap bitmap }
      else record d { right = mixed d.right bin_bitmap bitmap } in
    if bit_and bm bin_bitmap == bitmap
    then s
    else if at.bin == pre_bin
    then pack_cells at.history (put at.ref in_place s)
    else if good
    then put ref below s1
    else s1

unfoldable pub set_low : (ℕ → Bool) → Bin → ℕ → Binmap → Binmap
unfolding contains extend_to set_low_in
set_low room bin mask s =
    let bin_bitmap = bitmap_of bin in
    let bitmap = bit_and mask bin_bitmap in
    let (good, s1) = extend_to 64 room bin s in
    let rest = set_low_in room bin bin_bitmap bitmap s1 in
    if not (contains s.root_bin bin) && bitmap == bitmap_empty then s else if good then rest else s1

-- A cell's two subtrees freed, where it has them.
unfoldable pub free_below : Cell → Binmap → Binmap
unfolding free_cell
free_below c s =
    let s1 = if c.is_left_ref then free_cell 64 c.left s else s in
    if c.is_right_ref then free_cell 64 c.right s1 else s1

-- `_set__high_layer_bitmap` in a root that contains the bin's parent.
unfoldable pub set_high_in : (ℕ → Bool) → Bin → ℕ → Binmap → Binmap
unfolding trace pack_cells unpack parent free_cell
set_high_in room bin bitmap s =
    let pre_bin = parent bin in
    let at = trace s pre_bin in
    let c = s.cell at.ref in
    let to_the_left = ltb bin at.bin in
    let is_ref = if to_the_left then c.is_left_ref else c.is_right_ref in
    let word = if to_the_left then c.left else c.right in
    let bm = if is_ref then bitmap_empty else word in
    let loose =
      if to_the_left then record c { is_left_ref = false } else record c { is_right_ref = false } in
    let s1 = if is_ref then free_cell 64 word (put at.ref loose s) else s in
    let c1 = s1.cell at.ref in
    let in_place =
      if to_the_left then record c1 { left = bitmap } else record c1 { right = bitmap } in
    let (good, ref, s2) = unpack room bm pre_bin at s1 in
    let d = s2.cell ref in
    let below =
      if ltb bin pre_bin then record d { left = bitmap } else record d { right = bitmap } in
    if not is_ref && bm == bitmap
    then s
    else if at.bin == pre_bin
    then pack_cells at.history (put at.ref in_place s1)
    else if good
    then put ref below s2
    else s2

-- `_set__high_layer_bitmap` for a bin that does not contain the root.
unfoldable pub set_high_below : (ℕ → Bool) → Bin → ℕ → Binmap → Binmap
unfolding contains extend_to set_high_in parent
set_high_below room bin bitmap s =
    let (good, s1) = extend_to 64 room (parent bin) s in
    let rest = set_high_in room bin bitmap s1 in
    if not (contains s.root_bin (parent bin)) && bitmap == bitmap_empty
    then s
    else if good
    then rest
    else s1

unfoldable pub set_high : (ℕ → Bool) → Bin → ℕ → Binmap → Binmap
unfolding contains set_high_below free_below
set_high room bin bitmap s =
    let freed = free_below (s.cell root_ref) s in
    let whole = record (freed.cell root_ref) {
      is_left_ref = false;
      is_right_ref = false;
      left = bitmap;
      right = bitmap;
    } in
    if contains bin s.root_bin
    then record (put root_ref whole freed) { root_bin = bin }
    else set_high_below room bin bitmap s

-- `set`, `reset` and `clear`
unfoldable pub set : (ℕ → Bool) → Bin → Binmap → Binmap
unfolding is_none set_low set_high layer_bits
set room bin s =
    if is_none bin
    then s
    else if is_high bin
    then set_high room bin bitmap_filled s
    else set_low room bin bitmap_filled s

unfoldable pub reset : (ℕ → Bool) → Bin → Binmap → Binmap
unfolding is_none set_low set_high layer_bits
reset room bin s =
    if is_none bin
    then s
    else if is_high bin
    then set_high room bin bitmap_empty s
    else set_low room bin bitmap_empty s

unfoldable pub clear : Binmap → Binmap
unfolding free_below
clear s =
    let freed = free_below (s.cell root_ref) s in
    put root_ref
      (record (freed.cell root_ref) {
        is_left_ref = false;
        is_right_ref = false;
        left = bitmap_empty;
        right = bitmap_empty;
      })
      freed

-- The root cell without references and with the one bitmap in both halves.
abbrev pub flat : ℕ → Binmap → Binmap
flat bitmap s =
    put root_ref
      (record (s.cell root_ref) {
        is_left_ref = false;
        is_right_ref = false;
        left = bitmap;
        right = bitmap;
      })
      s

-- `fill(source)`
unfoldable pub fill : (ℕ → Bool) → Binmap → Binmap → Binmap
unfolding extend_to set
fill room source s =
    let (good, s1) = extend_to 64 room source.root_bin (record s { root_bin = source.root_bin }) in
    let filled = flat bitmap_filled (set room source.root_bin s1) in if good then filled else s1

-- `while (!root_bin_.contains(b)) root_bin_.to_parent();`
unfoldable pub raise_root : ℕ → Bin → Bin → Bin
unfolding contains to_parent
raise_root zero b root = root
raise_root (suc fuel) b root =
    let rest = raise_root fuel b (to_parent root) in if contains root b then root else rest

-- `empty(size)`; a size of 0 gives the offset -1.
unfoldable pub empty : ℕ → Binmap → Binmap
unfolding raise_root of_layer
empty size s =
    let b = of_layer 0 (if size == 0 then 2 ^ 64 - 1 else (size - 1) / 2) in
    flat bitmap_empty (record s { root_bin = raise_root 64 b s.root_bin })
