-- ===== src/Binmap/Picked.antt =====
-- binmap.cpp: the branches of `bitmap_to_bin` on the four bytes of a bitmap.
use Prim.Native.Nat.{bit_and}
use mathlib.Core.Path.{subst}
use native.Mathlib.Decide.{ℕ_discrete}
use libswift.Base.{
  ℕ, ◌+◌, ◌-◌, ◌*◌, ◌/◌, ◌%◌, ◌^◌, ◌≤◌, ◌<◌, ◌≡◌, ◌≢◌, refl, ap, sym, ◌∙◌, arith, Bool, true, false,
  not, leb, ltb, ◌==◌, if◌then◌else◌, Option, some, none, ==-eq_false,
}
use libswift.Binmap.Bitmap.{byte_bin, last_set, upper_bin, shift_signed, bitmap_to_bin}
use libswift.Binmap.Digits.{digit, digit-shift, all_digits_to}
use libswift.Binmap.Bytes.{FirstIn, Named}
use libswift.Binmap.First.{at_byte}

-- The branches on the last two bytes.
abbrev pub pick_upper : ℕ → ℕ → ℕ → ℕ
pick_upper t low next =
    if ltb t 16
    then (if not (t == 7) then 32 + t else if bit_and low 65535 == 0 then 47 else 39)
    else 48 + next

pub upper_bin-lem :
    (c : ℕ) → upper_bin c ≡ pick_upper (byte_bin c) (last_set c) (byte_bin (shift_signed c 8))
unfolding upper_bin
upper_bin-lem c = refl

abbrev pub pick : Bool → ℕ → ℕ → ℕ → ℕ → Option ℕ
pick empty t low next rest =
    if empty
    then none
    else if ltb t 16
    then (if not (t == 7)
        then some t
        else if low == 0
        then some 31
        else if bit_and low 65535 == 0
        then some 15
        else some 7)
    else if leb next 15
    then some (16 + next)
    else some rest

pub bitmap_to_bin-lem :
    (b : ℕ)
    → bitmap_to_bin b
      ≡ pick
          (b == 0)
          (byte_bin b)
          (last_set b)
          (byte_bin (shift_signed b 8))
          (upper_bin (shift_signed (shift_signed b 8) 8))
unfolding bitmap_to_bin
bitmap_to_bin-lem b = refl

-- Two bytes of ones behind two empty ones, and runs of ones from the first digit on.
upper_ones : (b : ℕ) → b % 65536 ≡ 0 → b / 65536 % 65536 ≡ 65535 → FirstIn 32 b 47
upper_ones b e full = (
  4,
  1,
  refl,
  omega arith,
  (
    λ j h. all_digits_to false 16 b e j h,
    λ j g h.
        let at : 16 + (j - 16) ≡ j = omega arith in
        ap (digit b) (sym at)
        ∙ sym (digit-shift b 16 (j - 16))
        ∙ all_digits_to true 16 (b / 65536) full (j - 16) (omega arith),
  ),
)

low_ones : (b w v : ℕ) → 2 ^ w ≤ 32 → v ≡ 2 ^ w - 1 → b % 2 ^ 2 ^ w ≡ 2 ^ 2 ^ w - 1 → FirstIn 32 b v
low_ones b w v fits named full = (
  w,
  0,
  omega (arith, named),
  omega arith,
  (λ j h. absurd (omega arith), λ j g h. all_digits_to true (2 ^ w) b full j (omega arith)),
)

-- The last two bytes, for what the table says of them.
module _ (b : ℕ) (empty : b % 65536 ≡ 0) where
  pub fourth :
      (t low next : ℕ)
      → t ≡ 255
      → b / 65536 % 256 ≡ 0
      → Named (b / 2 ^ 24 % 256) next
      → FirstIn 32 b (pick_upper t low next)
  fourth t low next e zero_byte named =
      let at : pick_upper t low next ≡ 16 * 3 + next = ground (arith, e) in
      subst (FirstIn 32 b) (sym at) (at_byte b 3 next (omega arith) (omega arith) named.2)

  pub third :
      (t low next : ℕ)
      → Named (b / 65536 % 256) t
      → (bit_and low 65535 ≡ 0 → b / 65536 % 65536 ≡ 65535)
      → FirstIn 32 b (pick_upper t low next)
  third t low next named ones =
      let here = at_byte b 2 t (omega arith) empty named.2 in
      elim (ℕ_discrete t 7) [
        | yes seven ↦ elim (ℕ_discrete (bit_and low 65535) 0) [
          | yes e ↦
              let at : pick_upper t low next ≡ 47 = ground (arith, seven, e) in
              subst (FirstIn 32 b) (sym at) (upper_ones b empty (ones e))
          | no e ↦
              let at : pick_upper t low next ≡ 32 + t = ground (arith, seven, ==-eq_false _ _ e) in
              subst (FirstIn 32 b) (sym at) here
        ]
        | no other ↦
            let at : pick_upper t low next ≡ 32 + t = ground (arith, named.0) in
            subst (FirstIn 32 b) (sym at) here
      ]

-- All four bytes.
module _ (b : ℕ) (h : b < 2 ^ 32) (nz : b ≢ 0) where
  pub first_two :
      (t low next rest : ℕ)
      → (b % 256 ≢ 0 → Named (b % 256) t)
      → (b % 256 ≡ 0 → t ≡ 255)
      → (low ≡ 0 → b ≡ 2 ^ 32 - 1)
      → (bit_and low 65535 ≡ 0 → b % 65536 ≡ 65535)
      → (b / 256 % 256 ≢ 0 → Named (b / 256 % 256) next)
      → (b / 256 % 256 ≡ 0 → next ≡ 255)
      → (b % 65536 ≡ 0 → FirstIn 32 b rest)
      → (v : ℕ) × (pick (b == 0) t low next rest ≡ some v) × FirstIn 32 b v
  first_two t low next rest named t_zero all32 all16 named' next_zero others =
      elim (ℕ_discrete (b % 256) 0) [
        | yes e ↦ elim (ℕ_discrete (b / 256 % 256) 0) [
          | yes e' ↦ (rest, ground (arith, t_zero e, next_zero e', nz), others (omega arith))
          | no e' ↦
              let n = named' e' in
              (
                16 + next,
                ground (arith, t_zero e, n.0, nz),
                at_byte b 1 next (omega arith) (omega arith) n.2,
              )
        ]
        | no e ↦
            let n = named e in
            let here = at_byte b 0 t (omega arith) (omega arith) (
              subst (λ (x : ℕ). FirstIn 8 (x % 256) t)
                (let q : b ≡ b / 2 ^ (8 * 0) = omega arith in q) n.2) in
            elim (ℕ_discrete t 7) [
              | no other ↦ (
                t,
                ground (arith, n.0, nz),
                subst (FirstIn 32 b) (let q : 16 * 0 + t ≡ t = omega arith in q) here,
              )
              | yes seven ↦ elim (ℕ_discrete low 0) [
                | yes z ↦ (
                  31,
                  ground (arith, z, seven, nz),
                  low_ones b 5 31 (omega arith) refl (omega (arith, all32 z)),
                )
                | no z ↦ elim (ℕ_discrete (bit_and low 65535) 0) [
                  | yes y ↦ (
                    15,
                    ground (arith, z, y, seven, nz),
                    low_ones b 4 15 (omega arith) refl (omega (arith, all16 y)),
                  )
                  | no y ↦ (
                    7,
                    ground (arith, z, y, seven, nz),
                    subst (FirstIn 32 b) (let q : 16 * 0 + t ≡ 7 = omega arith in q) here,
                  )
                ]
              ]
            ]
      ]
