-- ===== src/Binmap/Found.antt =====
-- binmap.cpp: `bitmap_to_bin` gives a bin of the first base bins in the bitmap.
use mathlib.Core.Path.{subst}
use native.Mathlib.Decide.{ℕ_discrete}
use libswift.Base.{ℕ, ◌/◌, ◌%◌, ◌^◌, ◌<◌, ◌≡◌, ◌≢◌, ap, sym, ◌∙◌, arith, get_or, some}
use libswift.Binmap.Bitmap.{bitmap_bins, byte_bin, last_set, upper_bin, shift_signed, bitmap_to_bin}
use libswift.Binmap.Bytes.{FirstIn, Named, byte-Named}
use libswift.Binmap.First.{shifted_small, last-ones16, last-ones32, byte_bin-lem}
use libswift.Binmap.Picked.{upper_bin-lem, bitmap_to_bin-lem, fourth, third, first_two}

-- What the shifts bring to the front.
shift_tail : (b : ℕ) → b < 2 ^ 32 → shift_signed b 8 % 2 ^ 24 ≡ b / 256
shift_tail b h = ground arith

low_half : (b c d : ℕ) → c % 2 ^ 24 ≡ b / 256 → d % 2 ^ 24 ≡ c / 256 → d % 65536 ≡ b / 65536 % 65536
low_half b c d e f = omega arith

low_byte : (x y : ℕ) → x % 65536 ≡ y % 65536 → x % 256 ≡ y % 256
low_byte x y e = omega arith

next_byte :
    (b d x : ℕ) → d % 65536 ≡ b / 65536 % 65536 → x % 2 ^ 24 ≡ d / 256 → x % 256 ≡ b / 2 ^ 24 % 256
next_byte b d x e f = omega arith

-- Of a bitmap of 32 base bins that is not empty, `bitmap_to_bin` gives a bin all of whose base bins
-- are in the bitmap, and before whose first base bin the bitmap has none.
pub bitmap_to_bin-FirstIn :
    (b : ℕ) → b < 2 ^ 32 → b ≢ 0 → (v : ℕ) × (bitmap_to_bin b ≡ some v) × FirstIn 32 b v
bitmap_to_bin-FirstIn b h nz =
    let c = shift_signed b 8 in
    let k : c < 2 ^ 32 = shifted_small b h in
    let d = shift_signed c 8 in
    let l : d < 2 ^ 32 = shifted_small c k in
    let first = byte_bin-lem b h in
    let second = byte_bin-lem c k ∙ ap (λ (x : ℕ). get_or bitmap_bins x 0) second_byte in
    let third_is = byte_bin-lem d l ∙ ap (λ (x : ℕ). get_or bitmap_bins x 0) third_byte in
    let fourth_is =
      byte_bin-lem (shift_signed d 8) (shifted_small d l)
      ∙ ap (λ (x : ℕ). get_or bitmap_bins x 0) fourth_byte in
    let (v, e, found) =
      first_two b h nz (byte_bin b) (last_set b) (byte_bin c) (upper_bin d)
        (λ q. subst (Named (b % 256)) (sym first) (byte-Named (b % 256) (omega arith) q))
        (λ q. first ∙ ap (λ (x : ℕ). get_or bitmap_bins x 0) q) (last-ones32 b h) (last-ones16 b h)
        (λ q.
          subst (Named (b / 256 % 256)) (sym second) (byte-Named (b / 256 % 256) (omega arith) q))
        (λ q. second ∙ ap (λ (x : ℕ). get_or bitmap_bins x 0) q)
        (λ q. subst (FirstIn 32 b) (sym (upper_bin-lem d)) (elim (ℕ_discrete (b / 65536 % 256) 0) [
          | yes z ↦
              fourth b q (byte_bin d) (last_set d) (byte_bin (shift_signed d 8))
                (third_is ∙ ap (λ (x : ℕ). get_or bitmap_bins x 0) z) z
                (subst (Named (b / 2 ^ 24 % 256)) (sym fourth_is)
                  (byte-Named (b / 2 ^ 24 % 256) (omega arith) (λ y. nz (omega arith))))
          | no z ↦
              third b q (byte_bin d) (last_set d) (byte_bin (shift_signed d 8))
                (subst (Named (b / 65536 % 256)) (sym third_is)
                  (byte-Named (b / 65536 % 256) (omega arith) z))
                (λ y. sym third_half ∙ last-ones16 d l y)
        ])) in
    (v, bitmap_to_bin-lem b ∙ e, found)
  where
    c_is : shift_signed b 8 % 2 ^ 24 ≡ b / 256
    c_is = shift_tail b h

    d_is : shift_signed (shift_signed b 8) 8 % 2 ^ 24 ≡ shift_signed b 8 / 256
    d_is = shift_tail (shift_signed b 8) (shifted_small b h)

    second_byte : shift_signed b 8 % 256 ≡ b / 256 % 256
    second_byte = omega (arith, c_is)

    third_half : shift_signed (shift_signed b 8) 8 % 65536 ≡ b / 65536 % 65536
    third_half = low_half b (shift_signed b 8) (shift_signed (shift_signed b 8) 8) c_is d_is

    third_byte : shift_signed (shift_signed b 8) 8 % 256 ≡ b / 65536 % 256
    third_byte = low_byte (shift_signed (shift_signed b 8) 8) (b / 65536) third_half

    fourth_byte : shift_signed (shift_signed (shift_signed b 8) 8) 8 % 256 ≡ b / 2 ^ 24 % 256
    fourth_byte =
        next_byte b (shift_signed (shift_signed b 8) 8)
          (shift_signed (shift_signed (shift_signed b 8) 8) 8) third_half
          (shift_tail (shift_signed (shift_signed b 8) 8)
            (shifted_small (shift_signed b 8) (shifted_small b h)))
