-- ===== src/BinUtils.antt =====
-- bin_utils.h: the peak bins of a content length, and bins on the wire in 32 and 64 bits.
pub mod Swaps
pub mod Peaks
pub mod Wire
use Prim.Native.Nat.{bit_and}
use libswift.Base.{
  ℕ, zero, suc, ◌+◌, ◌-◌, ◌*◌, ◌/◌, ◌%◌, ◌^◌, Bool, true, false, not, ◌&&◌, ◌==◌, if◌then◌else◌,
  List, [], ◌∷◌, ◌++◌, length, get_or, set,
}
use libswift.Word.{u64, sub64, shl64, shr64}
use libswift.Bin.{Bin, none_bin, all_bin, of_layer, is_none, is_all}

-- The first loop of `gen_peaks`: the state is the length that is left, `layer`, and the peaks
-- written so far.
unfoldable pub peak_loop : ℕ → ℕ → ℕ → List Bin → List Bin
peak_loop zero len layer peaks = peaks
peak_loop (suc fuel) len layer peaks =
    let peaks' =
      if not (bit_and len 1 == 0)
      then peaks ++ sub64 (shl64 (sub64 (u64 (2 * len)) 1) layer) 1 ∷ []
      else peaks in
    let rest = peak_loop fuel (shr64 len 1) (layer + 1) peaks' in if len == 0 then peaks else rest

-- The second loop, from `i` on with `n` rounds left: swap the entries `i` and `pp - 1 - i`.
unfoldable pub swap_loop : ℕ → ℕ → ℕ → List Bin → List Bin
swap_loop zero i pp peaks = peaks
swap_loop (suc n) i pp peaks =
    let memo = get_or peaks (pp - 1 - i) 0 in
    let peaks' = set peaks (pp - 1 - i) (get_or peaks i 0) in
    swap_loop n (i + 1) pp (set peaks' i memo)

pub record PeakList : Type 0 where
  -- the value that `gen_peaks` returns, `pp`
  pub count : ℕ
  -- the array, with NONE behind the last peak
  pub bins : List Bin

-- A 64-bit length has 64 digits, so the first loop ends by its test within 65 rounds.
unfoldable pub gen_peaks : ℕ → PeakList
unfolding of_layer
gen_peaks len =
    let peaks = peak_loop 65 len 0 [] in
    let pp = length peaks in
    record { count = pp; bins = swap_loop (pp / 2) 0 pp peaks ++ none_bin ∷ [] }

unfoldable pub is_uint32 : Bin → Bool
unfolding is_all is_none
is_uint32 v =
    if is_all v
    then true
    else if is_none v
    then true
    else v % 2 ^ 32 == v && not (v == 0xffffffff) && not (v == 0x7fffffff)

unfoldable pub to_uint32 : Bin → ℕ
unfolding is_all is_none
to_uint32 v = if is_all v then 0x7fffffff else if is_none v then 0xffffffff else v % 2 ^ 32

unfoldable pub to_uint64 : Bin → ℕ
to_uint64 v = v

unfoldable pub from_uint32 : ℕ → Bin
unfolding of_layer
from_uint32 v = if v == 0x7fffffff then all_bin else if v == 0xffffffff then none_bin else v

unfoldable pub from_uint64 : ℕ → Bin
from_uint64 v = v
