-- ===== src/Tests.antt =====
-- The theorems about bins, peaks and the wire form, applied at concrete inputs.
pub mod Model
pub mod Tree
pub mod Send
pub mod Swarms
pub mod Speed
pub mod Cells
use Prim.Native.Nat.{bit_xor}
use libswift.Base.{
  ℕ, suc, ◌+◌, ◌-◌, ◌*◌, ◌/◌, ◌^◌, ◌≤◌, ◌<◌, ◌≡◌, ◌≢◌, ◌↔◌, ◌⊎◌, refl, arith, Bool, true, List, [],
  ◌∷◌, some, leb, ltb, ◌==◌, if◌then◌else◌,
}
use libswift.Base.Int.{pos}
use libswift.Bin.{
  Bin, of_layer, all_bin, base_offset, base_length, base_left, base_right, parent, twisted,
  contains, layer_shifted, decompose, sort_on_layer,
}
use libswift.Bin.Layout.{node, InTree}
use libswift.Bin.Layer.{of_layer-decompose}
use libswift.Bin.Laws.{
  IsFamily, children_laws, parent-of_layer, interval_laws, contains_iff, contains_or_disjoint,
  twisted_laws, layer_shifted-of_layer, sort_on_layer-of_layer,
}
use libswift.BinUtils.{is_uint32, to_uint32, from_uint32, gen_peaks, peak_loop, swap_loop}
use libswift.BinUtils.Peaks.{IsPeaks, gen_peaks-IsPeaks}
use libswift.BinUtils.Wire.{from_uint32-to_uint32, to_uint32-from_uint32}

-- The bin over the base bins 12 to 15, and one of the layer below it.
third : InTree 2 3
third = (omega arith, omega arith)

second : InTree 1 4
second = (omega arith, omega arith)

abbrev small : Bin
small = 27

small_not_all : small ≢ all_bin
unfolding of_layer
small_not_all e = absurd (omega arith)

of_layer-decompose_example :
    (l : ℕ) × (o : ℕ) × (decompose 27 ≡ (pos l, some o)) × (of_layer l o ≡ 27)
of_layer-decompose_example = of_layer-decompose 27 (omega arith) small_not_all

children_laws_example : IsFamily (of_layer 2 3)
children_laws_example = children_laws 1 3 third

interval_laws_example :
    (base_offset (of_layer 2 3) ≡ 3 * 2 ^ 2)
    × (base_length (of_layer 2 3) ≡ 2 ^ 2)
    × (base_left (of_layer 2 3) ≡ of_layer 0 (base_offset (of_layer 2 3)))
    × (base_right (of_layer 2 3)
        ≡ of_layer 0 (base_offset (of_layer 2 3) + base_length (of_layer 2 3) - 1))
interval_laws_example = interval_laws 2 3 third

contains_iff_example :
    (contains (of_layer 2 3) (of_layer 1 4) ≡ true)
    ↔ ((3 * 2 ^ 2 ≤ 4 * 2 ^ 1) × (4 * 2 ^ 1 + 2 ^ 1 ≤ 3 * 2 ^ 2 + 2 ^ 2))
contains_iff_example = contains_iff 2 3 1 4 third second

twisted_laws_example :
    (twisted (of_layer 2 3) 5 ≡ of_layer 2 (bit_xor 3 (5 / 2 ^ 2)))
    × (twisted (twisted (of_layer 2 3) 5) 5 ≡ of_layer 2 3)
twisted_laws_example = twisted_laws 2 3 5 third (omega arith)

layer_shifted-of_layer_example :
    layer_shifted (of_layer 2 3) 1
    ≡ (if leb 1 2 then of_layer (2 - 1) 3 else of_layer 0 (3 / 2 ^ (1 - 2)))
layer_shifted-of_layer_example = layer_shifted-of_layer 2 3 1 third (omega arith)

gen_peaks-IsPeaks_example : (peaks : List Bin) × IsPeaks 13 (gen_peaks 13) peaks
gen_peaks-IsPeaks_example = gen_peaks-IsPeaks 13 (omega arith)

-- 13 = 8 + 4 + 1
gen_peaks_thirteen : gen_peaks 13 ≡ record { count = 3; bins = 7 ∷ 19 ∷ 24 ∷ (2 ^ 64 - 1) ∷ [] }
unfolding gen_peaks peak_loop swap_loop
gen_peaks_thirteen = refl

accepted_wide : is_uint32 27 ≡ true
unfolding is_uint32
accepted_wide = refl

from_uint32-to_uint32_example : (to_uint32 27 < 2 ^ 32) × (from_uint32 (to_uint32 27) ≡ 27)
from_uint32-to_uint32_example = from_uint32-to_uint32 27 accepted_wide

to_uint32-from_uint32_example :
    (is_uint32 (from_uint32 0x7fffffff) ≡ true) × (to_uint32 (from_uint32 0x7fffffff) ≡ 0x7fffffff)
to_uint32-from_uint32_example = to_uint32-from_uint32 0x7fffffff (omega arith)
