-- ===== src/Binmap/Masks.antt =====
-- What the mask of a bin of 32 base bins or fewer says of a bitmap.
use Prim.Native.Nat.{bit_and, bit_and-bitwise}
use native.Mathlib.Nat.{div-add-mod', mod-lt, pow-le-pow_right, mul-le-mul_right}
use libswift.Base.{
  ℕ, suc, ◌+◌, ◌-◌, ◌*◌, ◌/◌, ◌%◌, ◌^◌, ◌≤◌, ◌<◌, ◌≡◌, ◌↔◌, refl, ap, sym, ◌∙◌, arith, Bool, get_or,
}
use libswift.Bits.Step.{and_step}
use libswift.Bits.Fields.{pow_double, pow_pos, mul_pow_double}
use libswift.Bits.Tail.{pow_add}
use libswift.Bin.Layout.{node, InTree}
use libswift.Bin.Interval.{base_offset-node, base_length-node}
use libswift.Binmap.Bitmap.{bitmaps}
use libswift.Binmap.BitmapLaws.{bitmaps-interval}
use libswift.Binmap.Query.{bitmap_of}
use libswift.Binmap.Digits.{digit, fill, mask, masked_to, masked_from}
use libswift.Binmap.Uniform.{IsUniform}

-- The low six digits of a bin.
low_digits : (x : ℕ) → bit_and 63 x ≡ x % 64
low_digits x = omega (
  arith,
  and_step 63 x,
  and_step 31 (x / 2),
  and_step 15 (x / 2 / 2),
  and_step 7 (x / 2 / 2 / 2),
  and_step 3 (x / 2 / 2 / 2 / 2),
  and_step 1 (x / 2 / 2 / 2 / 2 / 2),
  bit_and-bitwise 0 (x / 2 / 2 / 2 / 2 / 2 / 2),
)

module _ (l o : ℕ) (low : l ≤ 5) where
  -- The bin's place within its 32 base bins.
  q : ℕ
  q = o / 2 ^ (5 - l)

  r : ℕ
  r = o % 2 ^ (5 - l)

  width : 2 ^ (5 - l) * 2 ^ l ≡ 32
  width = sym (pow_add (5 - l) l) ∙ ap (λ (x : ℕ). 2 ^ x) (let e : 5 - l + l ≡ 5 = omega arith in e)

  place : o * 2 ^ l ≡ q * 32 + r * 2 ^ l
  unfolding q r
  place =
      let split : q * 2 ^ (5 - l) + r ≡ o = div-add-mod' o (2 ^ (5 - l)) in
      omega (arith, ap (λ (x : ℕ). x * 2 ^ l) split, ap (λ (x : ℕ). q * x) width)

  inside : r * 2 ^ l + 2 ^ l ≤ 32
  unfolding r
  inside =
      let h : suc r ≤ 2 ^ (5 - l) = mod-lt o (pow_pos (5 - l)) in
      omega (arith, width, mul-le-mul_right (2 ^ l) h)

  start : o * 2 ^ l % 32 ≡ r * 2 ^ l
  start = omega (arith, place, inside, pow_pos l)

  in_tree : InTree l r
  unfolding r
  in_tree =
      let wide : 2 ^ (5 - l) ≤ 2 ^ (63 - l) =
        pow-le-pow_right {n = 2} (omega arith) (let h : 5 - l ≤ 63 - l = omega arith in h) in
      let h : o % 2 ^ (5 - l) < 2 ^ (5 - l) = mod-lt o (pow_pos (5 - l)) in
      (omega (arith, low), omega (arith, wide, h))

  pub bitmap_of-node : bitmap_of (node l o) ≡ mask (o * 2 ^ l % 32) (2 ^ l)
  bitmap_of-node =
      let v : node l o % 64 ≡ node l r =
        omega
          (arith, place, inside, pow_pos l, pow_double l, mul_pow_double o l, mul_pow_double r l) in
      let small : node l r < 63 =
        omega (arith, inside, pow_pos l, pow_double l, mul_pow_double r l) in
      ap (λ (x : ℕ). get_or bitmaps x 0) (low_digits (node l o) ∙ v)
      ∙ bitmaps-interval (node l r) small
      ∙ rw (base_offset-node l r in_tree, base_length-node l r in_tree, start) refl

  -- The masked bitmap is empty, or the whole mask, exactly if the bin's base bins are not in it, or
  -- all are.
  pub masked-IsUniform :
      (v : Bool) (b : ℕ)
      → (bit_and b (bitmap_of (node l o)) ≡ fill v (2 ^ l) * 2 ^ (o * 2 ^ l % 32))
        ↔ IsUniform v l o (λ i. digit b (i % 32))
  masked-IsUniform v b = (
    λ e i p p'.
        let at : i % 32 ≡ r * 2 ^ l + (i - o * 2 ^ l) = omega (arith, place, inside) in
        masked_to v b (o * 2 ^ l % 32) (2 ^ l) (ap (bit_and b) (sym bitmap_of-node) ∙ e) (i % 32)
          (omega (arith, start, at)) (omega (arith, start, at)),
    λ f.
        ap (bit_and b) bitmap_of-node
        ∙ masked_from v b (o * 2 ^ l % 32) (2 ^ l) (λ j p p'.
          let at : (o * 2 ^ l + (j - r * 2 ^ l)) % 32 ≡ j = omega (arith, place, inside, start) in
          ap (digit b) (sym at)
          ∙ f (o * 2 ^ l + (j - r * 2 ^ l)) (omega arith) (omega (arith, start))),
  )
