-- ===== src/BinUtils/Wire.antt =====
-- Bins as the 32-bit chunk addresses of the wire: what fits, and that nothing is lost.
use libswift.Base.{ℕ, ◌^◌, ◌<◌, ◌≡◌, arith, true}
use libswift.Bin.{Bin}
use libswift.BinUtils.{is_uint32, to_uint32, from_uint32}

-- A bin that `bin_isUInt32` accepts comes back from its 32-bit form.
pub from_uint32-to_uint32 :
    (v : Bin) → is_uint32 v ≡ true → (to_uint32 v < 2 ^ 32) × (from_uint32 (to_uint32 v) ≡ v)
unfolding is_uint32 to_uint32 from_uint32
from_uint32-to_uint32 v h = ground arith

-- Every 32-bit number names a bin that `bin_isUInt32` accepts, and is that bin's 32-bit form.
pub to_uint32-from_uint32 :
    (w : ℕ) → w < 2 ^ 32 → (is_uint32 (from_uint32 w) ≡ true) × (to_uint32 (from_uint32 w) ≡ w)
unfolding is_uint32 to_uint32 from_uint32
to_uint32-from_uint32 w h = ground arith
