-- ===== src/Binmap/BitmapLaws.antt =====
-- What the bitmap table holds, and that a bin comes back from its bitmap.
use libswift.Base.{
  ℕ, ◌-◌, ◌*◌, ◌^◌, ◌<◌, ◌≡◌, refl, Bool, true, Option, none, some, ◌==◌, ==_iff, get_or,
  holds_below, holds_below_sound, ap, arith,
}
use libswift.Bin.{Bin, base_offset, base_length}
use libswift.Binmap.Bitmap.{bitmaps, bitmap_to_bin}

table_checked :
    holds_below 63 (λ v. get_or bitmaps v 0 == (2 ^ base_length v - 1) * 2 ^ base_offset v) ≡ true
unfolding holds_below base_length base_offset
table_checked = refl

-- The table entry of each of the 63 bins over 32 base bins has exactly the digits of the base bins
-- under that bin: as many ones as the bin is long, shifted by its offset.
pub bitmaps-interval :
    (v : Bin) → v < 63 → get_or bitmaps v 0 ≡ (2 ^ base_length v - 1) * 2 ^ base_offset v
bitmaps-interval v h = (==_iff _ _).0 (holds_below_sound 63 _ v table_checked h)

is_back : Option ℕ → ℕ → Bool
is_back none v = 1 == 0
is_back (some w) v = w == v

is_back_sound : (o : Option ℕ) (v : ℕ) → is_back o v ≡ true → o ≡ some v
unfolding is_back
is_back_sound none v e = absurd (ground (arith, e))
is_back_sound (some w) v e = ap some ((==_iff w v).0 e)

back_checked : holds_below 63 (λ v. is_back (bitmap_to_bin (get_or bitmaps v 0)) v) ≡ true
unfolding holds_below is_back bitmap_to_bin
back_checked = refl

-- Each of the 63 bins over 32 base bins comes back from its own bitmap.
pub bitmap_to_bin-bitmaps : (v : Bin) → v < 63 → bitmap_to_bin (get_or bitmaps v 0) ≡ some v
bitmap_to_bin-bitmaps v h = is_back_sound _ v (holds_below_sound 63 _ v back_checked h)
