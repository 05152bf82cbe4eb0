-- ===== src/Binmap/Query.antt =====
-- binmap.cpp: the questions that a binmap answers about a bin.
use Prim.Native.Nat.{bit_and}
use libswift.Base.{
  ℕ, zero, suc, ◌-◌, ◌^◌, Bool, false, not, ◌&&◌, ◌||◌, Option, none, some, ltb, ◌==◌,
  if◌then◌else◌, get_or,
}
use libswift.Bin.{
  Bin, contains, is_all, left, right, sibling, none_bin, all_bin, of_layer, layer_bits,
}
use libswift.Bin.Steps.{to_left, to_right, to_parent}
use libswift.Binmap.Bitmap.{bitmaps, bitmap_empty, bitmap_filled, bitmap_bin_in}
use libswift.Binmap.Heap.{Cell, Binmap, root_ref, bitmap_layer_bits, is_high, trace}

-- `BITMAP[ BITMAP_LAYER_BITS & bin.toUInt() ]`
abbrev pub bitmap_of : Bin → ℕ
bitmap_of bin = get_or bitmaps (bit_and bitmap_layer_bits bin) 0

-- Whether a cell has no references and the one bitmap in both halves.
abbrev pub is_leaf : Cell → ℕ → Bool
is_leaf c bitmap = not c.is_left_ref && not c.is_right_ref && c.left == bitmap && c.right == bitmap

-- `is_empty()` and `is_filled()`
unfoldable pub is_empty_all : Binmap → Bool
is_empty_all s = is_leaf (s.cell root_ref) bitmap_empty

unfoldable pub is_filled_all : Binmap → Bool
unfolding is_all
is_filled_all s = is_all s.root_bin && is_leaf (s.cell root_ref) bitmap_filled

-- `is_empty(bin)` from the cell on where the trace stops.
unfoldable pub is_empty_at : Binmap → Bin → ℕ → Bin → Bool
unfolding layer_bits
is_empty_at s bin cur_ref cur_bin =
    let c = s.cell cur_ref in
    let bm1 = if ltb bin cur_bin then c.left else c.right in
    if is_high bin
    then (if ltb bin cur_bin
        then c.left == bitmap_empty
        else if ltb cur_bin bin
        then c.right == bitmap_empty
        else is_leaf c bitmap_empty)
    else bit_and bm1 (bitmap_of bin) == bitmap_empty

unfoldable pub is_empty : Binmap → Bin → Bool
unfolding contains trace is_empty_all is_empty_at
is_empty s bin =
    let at = trace s bin in
    if not (contains s.root_bin bin)
    then not (contains bin s.root_bin) || is_empty_all s
    else is_empty_at s bin at.ref at.bin

unfoldable pub is_filled_at : Binmap → Bin → ℕ → Bin → Bool
unfolding layer_bits
is_filled_at s bin cur_ref cur_bin =
    let c = s.cell cur_ref in
    let bm1 = if ltb bin cur_bin then c.left else c.right in
    if is_high bin
    then (if ltb bin cur_bin
        then c.left == bitmap_filled
        else if ltb cur_bin bin
        then c.right == bitmap_filled
        else is_leaf c bitmap_filled)
    else bit_and bm1 (bitmap_of bin) == bitmap_of bin

unfoldable pub is_filled : Binmap → Bin → Bool
unfolding contains trace is_filled_at
is_filled s bin =
    let at = trace s bin in
    if not (contains s.root_bin bin) then false else is_filled_at s bin at.ref at.bin

-- The two loops of `cover` over a bitmap: up while the bitmap of the bin gives the same answer. Six
-- rounds lead to the 64 base bins above a bitmap; `none` stands for a longer loop.
unfoldable pub cover_loop : ℕ → (ℕ → Bool) → Bin → Option Bin
unfolding to_parent
cover_loop zero solid bin = none
cover_loop (suc fuel) solid bin =
    let rest = cover_loop fuel solid (to_parent bin) in
    if solid (bitmap_of (to_parent bin)) then rest else some bin

-- `cover(bin)` for a bin within one bitmap.
unfoldable pub cover_low : Binmap → Bin → Bin → ℕ → Option Bin
unfolding cover_loop is_empty_all is_filled_all of_layer
cover_low s bin half bm1 =
    let bm2 = bitmap_of bin in
    if bm1 == bitmap_empty
    then some (if is_empty_all s then all_bin else half)
    else if bm1 == bitmap_filled
    then some (if is_filled_all s then all_bin else half)
    else if bit_and bm1 bm2 == bitmap_empty
    then cover_loop 6 (λ bm. bit_and bm1 bm == bitmap_empty) bin
    else if bit_and bm1 bm2 == bm2
    then cover_loop 6 (λ bm. bit_and bm1 bm == bm) bin
    else some none_bin

-- `cover(bin)` for a bin above the bitmaps.
unfoldable pub cover_high : Cell → Bin → Bin → Bin
unfolding left right of_layer
cover_high c bin cur_bin =
    if ltb bin cur_bin
    then (if c.left == bitmap_empty || c.left == bitmap_filled then left cur_bin else none_bin)
    else if ltb cur_bin bin
    then (if c.right == bitmap_empty || c.right == bitmap_filled then right cur_bin else none_bin)
    else if c.is_left_ref || c.is_right_ref
    then none_bin
    else if not (c.left == c.right)
    then none_bin
    else if c.left == bitmap_empty
    then all_bin
    else if c.left == bitmap_filled
    then cur_bin
    else none_bin

-- `cover(bin)` for a bin within the root.
unfoldable pub cover_within : Binmap → Bin → Option Bin
unfolding trace cover_low cover_high to_left to_right
cover_within s bin =
    let at = trace s bin in
    let c = s.cell at.ref in
    if is_high bin
    then some (cover_high c bin at.bin)
    else if ltb bin at.bin
    then cover_low s bin (to_left at.bin) c.left
    else cover_low s bin (to_right at.bin) c.right

unfoldable pub cover : Binmap → Bin → Option Bin
unfolding contains cover_within sibling is_empty_all of_layer
cover s bin =
    if not (contains s.root_bin bin)
    then some (
        if not (contains bin s.root_bin)
        then sibling s.root_bin
        else if is_empty_all s
        then all_bin
        else none_bin)
    else cover_within s bin

-- The loop of `find_empty()` (`skip` is the filled bitmap) and of `find_filled()` (the empty one):
-- down to the first bitmap that is another. `none` where an assertion fails.
unfoldable pub find_loop : ℕ → ℕ → Binmap → ℕ → Bin → Option (Bin × ℕ)
unfolding to_left to_right
find_loop skip zero s ref bin = none
find_loop skip (suc fuel) s ref bin =
    let c = s.cell ref in
    let go_left = find_loop skip fuel s c.left (to_left bin) in
    let go_right = find_loop skip fuel s c.right (to_right bin) in
    if c.is_left_ref
    then go_left
    else if not (c.left == skip)
    then some (to_left bin, c.left)
    else if c.is_right_ref
    then go_right
    else if c.right == skip
    then none
    else some (to_right bin, c.right)

-- `bitmap_to_bin` of what the loop has found.
unfoldable pub bin_found : (ℕ → ℕ) → Option (Bin × ℕ) → Option Bin
unfolding bitmap_bin_in
bin_found f none = none
bin_found f (some (bin, bitmap)) = bitmap_bin_in bin (f bitmap)

-- `~bitmap`
abbrev pub flip : ℕ → ℕ
flip bitmap = 2 ^ 32 - 1 - bitmap

-- `find_empty()` and `find_filled()`, with fuel for the loop.
unfoldable pub find_empty_on : ℕ → Binmap → Option Bin
unfolding find_loop bin_found left right sibling is_all of_layer
find_empty_on fuel s =
    let c = s.cell root_ref in
    let below_left = bin_found flip (find_loop bitmap_filled fuel s c.left (left s.root_bin)) in
    let below_right = bin_found flip (find_loop bitmap_filled fuel s c.right (right s.root_bin)) in
    if c.is_left_ref
    then below_left
    else if not (c.left == bitmap_filled)
    then (if c.left == bitmap_empty
        then some
            (if not c.is_right_ref && c.right == bitmap_empty then all_bin else left s.root_bin)
        else bitmap_bin_in (left s.root_bin) (flip c.left))
    else if c.is_right_ref
    then below_right
    else if c.right == bitmap_filled
    then some (if is_all s.root_bin then none_bin else sibling s.root_bin)
    else bitmap_bin_in (right s.root_bin) (flip c.right)

unfoldable pub find_filled_on : ℕ → Binmap → Option Bin
unfolding find_loop bin_found left right of_layer bitmap_bin_in
find_filled_on fuel s =
    let c = s.cell root_ref in
    let below_left = bin_found (λ b. b) (find_loop bitmap_empty fuel s c.left (left s.root_bin)) in
    let below_right =
      bin_found (λ b. b) (find_loop bitmap_empty fuel s c.right (right s.root_bin)) in
    if c.is_left_ref
    then below_left
    else if not (c.left == bitmap_empty)
    then (if c.left == bitmap_filled
        then some
            (if not c.is_right_ref && c.right == bitmap_filled then s.root_bin else left s.root_bin)
        else bitmap_bin_in (left s.root_bin) c.left)
    else if c.is_right_ref
    then below_right
    else if c.right == bitmap_empty
    then some none_bin
    else bitmap_bin_in (right s.root_bin) c.right

-- The root has at most 62 layers of cells below it.
unfoldable pub find_empty : Binmap → Option Bin
unfolding find_empty_on
find_empty = find_empty_on 64

unfoldable pub find_filled : Binmap → Option Bin
unfolding find_filled_on
find_filled = find_filled_on 64
