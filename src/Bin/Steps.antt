-- ===== src/Bin/Steps.antt =====
-- The methods of bin.h that change the object in place; the result is the new value of `v_`.
use Prim.Native.Nat.{bit_and, bit_or, bit_xor}
use libswift.Base.{ℕ, not, ◌==◌, if◌then◌else◌}
use libswift.Word.{add64, sub64, compl64, shl64, shr64, low_bit}
use libswift.Bin.{Bin, is_none, layer_bits}

unfoldable pub to_parent : Bin → Bin
unfolding layer_bits
to_parent v =
    let lbs = layer_bits v in let nlbs = sub64 (sub64 0 2) lbs in bit_and (bit_or v lbs) nlbs

unfoldable pub to_left : Bin → Bin
to_left v = let t = shr64 (low_bit (add64 v 1)) 1 in bit_xor v t

unfoldable pub to_right : Bin → Bin
to_right v = let t = shr64 (low_bit (add64 v 1)) 1 in add64 v t

unfoldable pub to_sibling : Bin → Bin
to_sibling v = bit_xor v (add64 (bit_xor v (add64 v 1)) 1)

unfoldable pub to_base_left : Bin → Bin
unfolding is_none
to_base_left v = if not (is_none v) then bit_and v (add64 v 1) else v

unfoldable pub to_base_right : Bin → Bin
unfolding is_none
to_base_right v = if not (is_none v) then sub64 (bit_or v (add64 v 1)) 1 else v

unfoldable pub to_twisted : Bin → ℕ → Bin
unfolding layer_bits
to_twisted v mask = bit_xor v (bit_and (shl64 mask 1) (compl64 (layer_bits v)))

unfoldable pub to_layer_shifted : Bin → ℕ → Bin
unfolding layer_bits
to_layer_shifted v zlayer =
    if not (shr64 (layer_bits v) zlayer == 0)
    then shr64 v zlayer
    else bit_and (shr64 v zlayer) (compl64 1)
