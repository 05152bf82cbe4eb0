-- ===== src/Binmap/First.antt =====
-- binmap.cpp: `bitmap_to_bin`, which looks at the bytes of a bitmap in turn.
use Prim.Native.Nat.{bit_and}
use native.Mathlib.Nat.{pow-le-pow_right, mul-le-mul_right}
use native.Mathlib.Decide.{dec_le, dec_lt}
use libswift.Base.{
  ℕ, zero, suc, ◌+◌, ◌-◌, ◌*◌, ◌/◌, ◌%◌, ◌^◌, ◌≤◌, ◌<◌, ◌≡◌, ap, sym, ◌∙◌, arith, true, false,
  get_or,
}
use libswift.Bits.Fields.{mul_pow_double, pow_double, pow_pos, mod_double, and_mask, mod_fields}
use libswift.Bits.Tail.{exponent-le, pow_add, and_negation}
use libswift.Bin.Layout.{node}
use libswift.Bin.Layer.{Odd-all}
use libswift.Binmap.Bitmap.{bitmap_bins, byte_bin, last_set, shift_signed}
use libswift.Binmap.Digits.{digit, digit-suc, digit-shift, all_digits_to}
use libswift.Binmap.Bytes.{FirstIn}

-- Cutting a number off above a digit keeps the digit.
digit-mod : (w y j : ℕ) → j < w → digit (y % 2 ^ w) j ≡ digit y j
digit-mod zero y j h = absurd (omega arith)
digit-mod (suc w) y zero h = ground (arith, mod_double w y, pow_double w)
digit-mod (suc w) y (suc j) h =
    let half : y % 2 ^ suc w / 2 ≡ y / 2 % 2 ^ w = omega (arith, mod_double w y) in
    digit-suc (y % 2 ^ suc w) j
    ∙ ap (λ (x : ℕ). digit x j) half
    ∙ digit-mod w (y / 2) j (omega arith)
    ∙ sym (digit-suc y j)

-- The bin of one byte of a bitmap whose lower bytes are empty.
pub at_byte :
    (b m t : ℕ)
    → m ≤ 3
    → b % 2 ^ (8 * m) ≡ 0
    → FirstIn 8 (b / 2 ^ (8 * m) % 256) t
    → FirstIn 32 b (16 * m + t)
at_byte b m t low empty (l, r, named, fits, first) =
    (l, r + m * 2 ^ (3 - l), named', omega (arith, wide), (before', full'))
  where
    small : l ≤ 3
    small = exponent-le l 3 (omega (arith, fits))

    wide : m * 2 ^ (3 - l) * 2 ^ l ≡ 8 * m
    wide =
        let e : 3 - l + l ≡ 3 = omega (arith, small) in
        omega (arith, ap (λ (x : ℕ). m * x) (sym (pow_add (3 - l) l) ∙ ap (λ (x : ℕ). 2 ^ x) e))

    named' : 16 * m + t ≡ node l (r + m * 2 ^ (3 - l))
    named' = omega (
      arith,
      wide,
      named,
      mul_pow_double r l,
      mul_pow_double (m * 2 ^ (3 - l)) l,
      mul_pow_double (r + m * 2 ^ (3 - l)) l,
    )

    same : (j : ℕ) → j < 8 → digit (b / 2 ^ (8 * m) % 256) j ≡ digit b (8 * m + j)
    same j h = digit-mod 8 (b / 2 ^ (8 * m)) j h ∙ digit-shift b (8 * m) j

    before' : (j : ℕ) → j < (r + m * 2 ^ (3 - l)) * 2 ^ l → digit b j ≡ false
    before' j h = elim (dec_lt j (8 * m)) [
      | yes p ↦ all_digits_to false (8 * m) b empty j p
      | no p ↦
          let at : 8 * m + (j - 8 * m) ≡ j = omega arith in
          ap (digit b) (sym at)
          ∙ sym (same (j - 8 * m) (omega (arith, wide, fits)))
          ∙ first.0 (j - 8 * m) (omega (arith, wide))
    ]

    full' :
        (j : ℕ)
        → (r + m * 2 ^ (3 - l)) * 2 ^ l ≤ j
        → j < (r + m * 2 ^ (3 - l)) * 2 ^ l + 2 ^ l
        → digit b j ≡ true
    full' j g h =
        let at : 8 * m + (j - 8 * m) ≡ j = omega (arith, wide) in
        ap (digit b) (sym at)
        ∙ sym (same (j - 8 * m) (omega (arith, wide, fits)))
        ∙ first.1 (j - 8 * m) (omega (arith, wide)) (omega (arith, wide))

pow-lt : (w l : ℕ) → l < w → 2 ^ l < 2 ^ w
pow-lt w l h =
    let e : 2 ^ suc l ≤ 2 ^ w = pow-le-pow_right {n = 2} (omega arith) h in
    omega (arith, e, pow_double l, pow_pos l)

-- The lowest digit of a number of 32 bits, cut to `w` digits, is none only if these are all zero.
lowest :
    (t w : ℕ) → t < 2 ^ 32 → w ≤ 32 → bit_and t ((2 ^ 32 - t) % 2 ^ 32) % 2 ^ w ≡ 0 → t % 2 ^ w ≡ 0
lowest zero w h k e = omega (arith, pow_pos w)
lowest (suc n) w h k e =
    let (l, o, at) = Odd-all n in
    elim (dec_le w l) [
      | yes p ↦
          let split : 2 ^ l ≡ 2 ^ (l - w) * 2 ^ w =
            ap (λ (x : ℕ). 2 ^ x) (let q : l ≡ l - w + w = omega arith in q) ∙ pow_add (l - w) w in
          let q = o * 2 * 2 ^ (l - w) + 2 ^ (l - w) in
          let whole : suc n ≡ q * 2 ^ w + 0 =
            omega (arith, at, mul_pow_double o l, ap (λ (x : ℕ). o * 2 * x) split, split) in
          ap (λ (x : ℕ). x % 2 ^ w) whole ∙ mod_fields (2 ^ w) q 0 (pow_pos w)
      | no p ↦
          let exponent : 31 - l + suc l ≡ 32 = omega arith in
          let width : 2 ^ 32 ≡ 2 ^ (31 - l) * 2 ^ suc l =
            ap (λ (x : ℕ). 2 ^ x) (sym exponent) ∙ pow_add (31 - l) (suc l) in
          let fits : o < 2 ^ (31 - l) = elim (dec_lt o (2 ^ (31 - l))) [
            | yes q ↦ q
            | no q ↦
                let r : 2 ^ (31 - l) ≤ o = omega arith in
                absurd (omega (arith, at, width, h, mul-le-mul_right (2 ^ suc l) r))
          ] in
          let value : bit_and (suc n) ((2 ^ 32 - suc n) % 2 ^ 32) ≡ 2 ^ l =
            ap (bit_and (suc n))
              (let q : (2 ^ 32 - suc n) % 2 ^ 32 ≡ 2 ^ 32 - suc n = omega arith in q)
            ∙ ap (λ (x : ℕ). bit_and x (2 ^ 32 - x)) at
            ∙ ap (λ (x : ℕ). bit_and (o * 2 ^ suc l + 2 ^ l) (2 ^ x - (o * 2 ^ suc l + 2 ^ l)))
                (sym exponent)
            ∙ and_negation l o (31 - l) fits in
          let less : 2 ^ l < 2 ^ w = pow-lt w l (omega arith) in
          let whole : 2 ^ l ≡ 0 * 2 ^ w + 2 ^ l = omega arith in
          let zero_pow : 2 ^ l ≡ 0 =
            sym (mod_fields (2 ^ w) 0 (2 ^ l) less)
            ∙ ap (λ (x : ℕ). x % 2 ^ w) (sym whole)
            ∙ ap (λ (x : ℕ). x % 2 ^ w) (sym value)
            ∙ e in
          absurd (omega (arith, zero_pow, pow_pos l))
    ]

-- The bytes behind the first.
module _ (b : ℕ) (h : b < 2 ^ 32) where
  pub shifted : bit_and (shift_signed b 8) 255 ≡ b / 256 % 256
  shifted = and_mask 8 (shift_signed b 8) ∙ (ground arith)

  pub shifted_small : shift_signed b 8 < 2 ^ 32
  shifted_small = ground arith

  pub shifted_next : shift_signed b 8 / 256 % 256 ≡ b / 65536 % 256
  shifted_next = ground arith

  pub last-ones16 : bit_and (last_set b) 65535 ≡ 0 → b % 65536 ≡ 65535
  unfolding last_set
  last-ones16 e =
      let t = lowest ((b + 1) % 2 ^ 32) 16 (omega arith) (omega arith) (sym (and_mask 16 _) ∙ e) in
      omega arith

  pub last-ones32 : last_set b ≡ 0 → b ≡ 2 ^ 32 - 1
  unfolding last_set
  last-ones32 e =
      let t = lowest ((b + 1) % 2 ^ 32) 32 (omega arith) (omega arith) (omega (arith, e)) in
      omega arith

  pub byte_bin-lem : byte_bin b ≡ get_or bitmap_bins (b % 256) 0
  unfolding byte_bin
  byte_bin-lem = ap (λ (x : ℕ). get_or bitmap_bins x 0) (and_mask 8 b)
