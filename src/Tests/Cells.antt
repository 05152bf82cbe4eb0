-- ===== src/Tests/Cells.antt =====
-- The theorems about the cells of a binmap, applied to one that `set` has built: base bins 3 and 100.
use libswift.Base.{List, [], ◌∷◌, ◌==◌, if◌then◌else◌, ℕ, some, ◌≡◌, ◌↔◌, refl, arith, true, false}
use libswift.Bin.{contains, de_bruijn_layer, of_layer}
use libswift.Binmap.Heap.{is_high, Binmap, blank, new_binmap, reserve_cells, alloc_cell}
use libswift.Binmap.Query.{is_empty, is_filled, cover, find_empty, find_filled}
use libswift.Binmap.Update.{set}
use libswift.Binmap.Shape.{Half, bits, sub, IsTree, member}
use libswift.Binmap.Uniform.{IsUniform}
use libswift.Binmap.Bitmap.{bitmap_to_bin}
use libswift.Binmap.Bytes.{FirstIn}
use libswift.Binmap.Found.{bitmap_to_bin-FirstIn}
use libswift.Binmap.RootFound.{Found}
use libswift.Binmap.FindLaws.{find_filled-Found, find_empty-Found}
use libswift.Binmap.CoverLaws.{cover_beyond}
use libswift.Binmap.Pool.{IsPool}
use libswift.Binmap.Reserve.{
  IsReserved, IsAllocated, reserve_cells-IsReserved, alloc_cell-IsAllocated,
}
use libswift.Binmap.Start.{new_binmap-IsTree}
use libswift.Binmap.Answers.{is_empty_iff, is_filled_iff}

unfoldable sample : Binmap
unfolding new_binmap set
sample = set (λ n. true) 200 (set (λ n. true) 6 (new_binmap (λ n. true)))

abbrev low_half : Half
low_half = sub 1 (bits 8) (bits 0)

abbrev high_half : Half
high_half = sub 2 (bits 0) (bits 16)

sample-IsTree : IsTree sample 6 low_half high_half
unfolding sample is_high de_bruijn_layer
sample-IsTree = record {
  root = refl;
  low = omega arith;
  high = omega arith;
  left = (refl, refl, (refl, refl, omega arith), (refl, refl, omega arith));
  right = (refl, refl, (refl, refl, omega arith), (refl, refl, omega arith));
  left_deep = (omega arith, omega arith);
  right_deep = (omega arith, omega arith);
  left_packed = (tt, tt, λ e. absurd (omega (arith, e)));
  right_packed = (tt, tt, λ e. absurd (omega (arith, e)));
}

is_empty_iff_example :
    (is_empty sample (of_layer 5 1) ≡ true) ↔ IsUniform false 5 1 (member 6 low_half high_half)
is_empty_iff_example =
    is_empty_iff sample 6 low_half high_half sample-IsTree 5 1 (omega arith, omega arith)

is_filled_iff_example :
    (is_filled sample (of_layer 0 100) ≡ true) ↔ IsUniform true 0 100 (member 6 low_half high_half)
is_filled_iff_example =
    is_filled_iff sample 6 low_half high_half sample-IsTree 0 100 (omega arith, omega arith)

find_filled-Found_example : Found true (member 6 low_half high_half) (find_filled sample)
find_filled-Found_example = find_filled-Found sample 6 low_half high_half sample-IsTree

find_empty-Found_example : Found false (member 6 low_half high_half) (find_empty sample)
find_empty-Found_example = find_empty-Found sample 6 low_half high_half sample-IsTree

bitmap_to_bin-FirstIn_example : (v : ℕ) × (bitmap_to_bin 24 ≡ some v) × FirstIn 32 24 v
bitmap_to_bin-FirstIn_example =
    bitmap_to_bin-FirstIn 24 (omega arith) (λ e. absurd (omega (arith, e)))

cover_beyond_example :
    (cover sample (of_layer 0 300) ≡ some (of_layer 7 1))
    × (contains (of_layer 7 1) (of_layer 0 300) ≡ false)
cover_beyond_example =
    cover_beyond sample 6 low_half high_half sample-IsTree 0 300 (omega arith, omega arith)
      (omega arith)

new_binmap-IsTree_example :
    IsTree (new_binmap (λ n. true)) 5 (bits 0) (bits 0)
    × ((i : ℕ) → member 5 (bits 0) (bits 0) i ≡ false)
    × ((xs : List ℕ) × IsPool (new_binmap (λ n. true)) xs)
new_binmap-IsTree_example = new_binmap-IsTree (λ n. true) refl

-- A binmap of two cells, of which the second is free.
abbrev pair_of_cells : Binmap
pair_of_cells = record {
  cell = λ i. if i == 1 then record blank { is_free = true } else blank;
  cells_number = 2;
  allocated_cells_number = 1;
  free_top = 1;
  root_bin = 63;
}

pair_of_cells-IsPool : IsPool pair_of_cells (1 ∷ [])
pair_of_cells-IsPool = record {
  chain = (refl, refl, tt, tt);
  below = (omega arith, tt);
  count = refl;
  fits = omega arith;
}

reserve_cells-IsReserved_example :
    IsReserved (λ n. true) 2 pair_of_cells (reserve_cells (λ n. true) 2 pair_of_cells)
reserve_cells-IsReserved_example =
    reserve_cells-IsReserved (λ n. true) 2 pair_of_cells (1 ∷ []) pair_of_cells-IsPool (omega arith)

alloc_cell-IsAllocated_example :
    IsAllocated (λ n. true) pair_of_cells (alloc_cell (λ n. true) pair_of_cells)
alloc_cell-IsAllocated_example =
    alloc_cell-IsAllocated (λ n. true) pair_of_cells (1 ∷ []) pair_of_cells-IsPool

-- What the code answers of the sample.
asks :
    (is_empty sample (of_layer 5 1) ≡ true)
    × (is_filled sample (of_layer 0 100) ≡ true)
    × (is_filled sample (of_layer 0 99) ≡ false)
    × (is_empty sample (of_layer 8 0) ≡ false)
    × (find_filled sample ≡ some (of_layer 0 3))
    × (find_empty sample ≡ some (of_layer 1 0))
unfolding sample is_high de_bruijn_layer is_empty is_filled find_filled find_empty
asks = (refl, refl, refl, refl, refl, refl)
