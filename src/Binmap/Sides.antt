-- ===== src/Binmap/Sides.antt =====
-- On which side of a bin on the way down the target lies.
use native.Mathlib.Nat.{div-add-mod', mod-lt, mul-le-mul_right}
use libswift.Base.{ℕ, suc, ◌+◌, ◌-◌, ◌*◌, ◌/◌, ◌%◌, ◌^◌, ◌≤◌, ◌<◌, ◌≡◌, ap, sym, ◌∙◌, arith}
use libswift.Bits.Fields.{pow_double, pow_pos, div_double, div_fields}
use libswift.Bits.Tail.{pow_add}
use libswift.Bin.{Bin}
use libswift.Bin.Layout.{node}

-- The sides of a bin above the target, `d` layers and one more.
module _ (d l o : ℕ) where
  abbrev pub above : Bin
  above = node (suc (d + l)) (o / 2 ^ suc d)

  -- The target lies in the left half, or in the right.
  pub sides : (o / 2 ^ d % 2 ≡ 0 → node l o < above) × (o / 2 ^ d % 2 ≡ 1 → above < node l o)
  sides =
      let x = o / 2 ^ d in
      let y = o % 2 ^ d in
      let split : x * 2 ^ d + y ≡ o = div-add-mod' o (2 ^ d) in
      let rest : suc y ≤ 2 ^ d = mod-lt o (pow_pos d) in
      let up : o / 2 ^ suc d ≡ x / 2 = sym (div_double d o) in
      let P = 2 ^ suc (d + l) in
      let P_is : P ≡ 2 ^ d * 2 ^ suc l =
        ap (λ (z : ℕ). 2 ^ z) (let e : suc (d + l) ≡ d + suc l = omega arith in e)
        ∙ pow_add d (suc l) in
      let same : suc (d + l) ≡ suc (d + l) = omega arith in
      let tall : 2 ^ (suc (d + l)) ≡ P = ap (λ (z : ℕ). 2 ^ z) same in
      let taller : 2 ^ suc (suc (d + l)) ≡ 2 * P = omega (arith, pow_double (suc (d + l)), tall) in
      let at : o * 2 ^ suc l ≡ x * P + y * 2 ^ suc l =
        omega (arith, ap (λ (z : ℕ). z * 2 ^ suc l) split, ap (λ (z : ℕ). x * z) P_is) in
      let top : o / 2 ^ suc d * 2 ^ suc (suc (d + l)) ≡ x / 2 * (2 * P) =
        omega
          (arith, ap (λ (z : ℕ). z * 2 ^ suc (suc (d + l))) up, ap (λ (z : ℕ). x / 2 * z) taller) in
      let fits : y * 2 ^ suc l + 2 ^ suc l ≤ P =
        omega (arith, P_is, mul-le-mul_right (2 ^ suc l) rest) in
      (
        λ even.
            let half : x * P ≡ x / 2 * (2 * P) =
              omega (arith, ap (λ (z : ℕ). z * P) (let e : x ≡ 2 * (x / 2) = omega arith in e)) in
            omega (arith, at, top, tall, fits, half, pow_double l, pow_pos l),
        λ odd.
            let half : x * P ≡ x / 2 * (2 * P) + P =
              omega
                (arith, ap (λ (z : ℕ). z * P) (let e : x ≡ 2 * (x / 2) + 1 = omega arith in e)) in
            omega
              (arith, at, top, tall, fits, half, pow_double l, pow_pos l, pow_pos (suc (d + l))),
      )

  -- The base bins under the target all lie in the half at `o / 2 ^ d`.
  pub in_half : (i : ℕ) → o * 2 ^ l ≤ i → i < o * 2 ^ l + 2 ^ l → i / 2 ^ (d + l) ≡ o / 2 ^ d
  in_half i p q =
      let x = o / 2 ^ d in
      let y = o % 2 ^ d in
      let split : x * 2 ^ d + y ≡ o = div-add-mod' o (2 ^ d) in
      let rest : suc y ≤ 2 ^ d = mod-lt o (pow_pos d) in
      let at : o * 2 ^ l ≡ x * 2 ^ (d + l) + y * 2 ^ l =
        omega (arith, ap (λ (z : ℕ). z * 2 ^ l) split, ap (λ (z : ℕ). x * z) (pow_add d l)) in
      let fits : y * 2 ^ l + 2 ^ l ≤ 2 ^ (d + l) =
        omega (arith, pow_add d l, mul-le-mul_right (2 ^ l) rest) in
      let whole : x * 2 ^ (d + l) + (i - x * 2 ^ (d + l)) ≡ i = omega (arith, at) in
      ap (λ (z : ℕ). z / 2 ^ (d + l)) (sym whole)
      ∙ div_fields (2 ^ (d + l)) x (i - x * 2 ^ (d + l)) (omega (arith, at, fits))
