-- ===== src/Bin.antt =====
-- bin.h and bin.cpp: the class `bin_t`, a node of the tree of aligned binary intervals, as its
-- 64-bit value `v_` in the tail111 encoding. A method that changes the object (`to_parent`)
-- returns the new value.
pub mod Steps
pub mod Layout
pub mod Family
pub mod Layer
pub mod Laws
pub mod Twist
pub mod Shift
pub mod Interval
use Prim.Native.Nat.{bit_and, bit_or, bit_xor}
use libswift.Base.{
  ℕ, ◌+◌, ◌*◌, ◌%◌, ◌^◌, Bool, false, not, ◌&&◌, Option, none, some, List, [], ◌∷◌, ltb, leb, ◌==◌,
  if◌then◌else◌, get_or,
}
use libswift.Base.Int.{ℤ, pos, negsuc, suc_ℤ, ltb_ℤ, eq_ℤ}
use libswift.Word.{add64, sub64, compl64, shl64, shr64, shift_right, low_bit}

abbrev pub Bin : Type 0
Bin = ℕ

-- `bin_t(int layer, uint_t offset)`. The argument is `layer` as the unsigned number that the
-- code compares with the width.
unfoldable pub of_layer : ℕ → ℕ → Bin
of_layer layer offset =
    if ltb layer 64 then sub64 (shl64 (add64 (2 * offset) 1) layer) 1 else sub64 0 1

abbrev pub none_bin : Bin
unfolding of_layer
none_bin = of_layer 64 0

abbrev pub all_bin : Bin
unfolding of_layer
all_bin = of_layer 63 0

-- The value of a node: `toUInt()`. The constructor from a number is the identity too.
abbrev pub to_uint : Bin → ℕ
to_uint v = v

unfoldable pub is_none : Bin → Bool
unfolding of_layer
is_none v = v == none_bin

unfoldable pub is_all : Bin → Bool
unfolding of_layer
is_all v = v == all_bin

unfoldable pub is_base : Bin → Bool
is_base v = bit_and v 1 == 0

unfoldable pub layer_bits : Bin → ℕ
layer_bits v = bit_xor v (add64 v 1)

unfoldable pub is_left : Bin → Bool
unfolding layer_bits
is_left v = bit_and v (add64 (layer_bits v) 1) == 0

unfoldable pub is_right : Bin → Bool
unfolding is_left
is_right v = not (is_left v)

unfoldable pub base_offset : Bin → ℕ
base_offset v = shr64 (bit_and v (add64 v 1)) 1

unfoldable pub base_length : Bin → ℕ
base_length v = low_bit (add64 v 1)

-- The table of `layer()`; the product is taken in 64 bits.
abbrev de_bruijn : List ℕ
de_bruijn =
    0 ∷ 1 ∷ 28 ∷ 2 ∷ 29 ∷ 14 ∷ 24 ∷ 3 ∷ 30 ∷ 22 ∷ 20 ∷ 15 ∷ 25 ∷ 17 ∷ 4 ∷ 8 ∷ 31 ∷ 27 ∷ 13 ∷ 23 ∷ 21
    ∷ 19 ∷ 16 ∷ 7 ∷ 26 ∷ 12 ∷ 18 ∷ 6 ∷ 11 ∷ 5 ∷ 10 ∷ 9 ∷ []

unfoldable pub de_bruijn_layer : ℕ → ℕ
de_bruijn_layer tail =
    let big = ltb 0x80000000 tail in
    let r : ℕ = if big then 32 else 0 in
    let tail' = if big then shr64 (shr64 tail 16) 16 else tail in
    r + get_or de_bruijn (bit_and 0x1f (shr64 (tail' * 0x077CB531 % 2 ^ 64) 27)) 0

unfoldable pub layer : Bin → ℤ
layer v = if is_none v then negsuc 0 else pos (de_bruijn_layer (low_bit (add64 v 1)))

-- `none` is a shift by 64, which C leaves undefined.
unfoldable pub layer_offset : Bin → Option ℕ
layer_offset v = shift_right v (suc_ℤ (layer v))

-- `decompose`, with both pointers given.
unfoldable pub decompose : Bin → ℤ × Option ℕ
decompose v = let l = layer v in (l, shift_right v (suc_ℤ l))

unfoldable pub parent : Bin → Bin
unfolding layer_bits
parent v = let lbs = layer_bits v in let nlbs = sub64 (sub64 0 2) lbs in bit_and (bit_or v lbs) nlbs

unfoldable pub left : Bin → Bin
left v = let t = shr64 (low_bit (add64 v 1)) 1 in bit_xor v t

unfoldable pub right : Bin → Bin
right v = let t = shr64 (low_bit (add64 v 1)) 1 in add64 v t

unfoldable pub sibling : Bin → Bin
unfolding layer_bits
sibling v = bit_xor v (add64 (layer_bits v) 1)

unfoldable pub base_left : Bin → Bin
unfolding is_none
base_left v = if is_none v then none_bin else bit_and v (add64 v 1)

unfoldable pub base_right : Bin → Bin
unfolding is_none
base_right v = if is_none v then none_bin else sub64 (bit_or v (add64 v 1)) 1

unfoldable pub twisted : Bin → ℕ → Bin
unfolding layer_bits
twisted v mask = bit_xor v (bit_and (shl64 mask 1) (compl64 (layer_bits v)))

-- The count is below 64: a shift by more is undefined.
unfoldable pub layer_shifted : Bin → ℕ → Bin
unfolding layer_bits
layer_shifted v zlayer =
    if not (shr64 (layer_bits v) zlayer == 0)
    then shr64 v zlayer
    else bit_and (shr64 v zlayer) (compl64 1)

unfoldable pub contains : Bin → Bin → Bool
unfolding is_none
contains v bin =
    if is_none v then false else leb (bit_and v (add64 v 1)) bin && ltb bin (bit_or v (add64 v 1))

less_offset : Option ℕ → Option ℕ → Option Bool
less_offset (some a) (some b) = some (ltb a b)
less_offset _ _ = none

-- `bin_sort_on_layer_cmp`; `none` where a `layer_offset()` is undefined.
unfoldable pub sort_on_layer : Bin → Bin → Option Bool
unfolding less_offset
sort_on_layer i j =
    if eq_ℤ (layer i) (layer j)
    then less_offset (layer_offset i) (layer_offset j)
    else some (ltb_ℤ (layer i) (layer j))
