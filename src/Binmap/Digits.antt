-- ===== src/Binmap/Digits.antt =====
-- The digits of a bitmap: what the comparisons of a masked bitmap say of them.
use Prim.Native.Nat.{bit_and}
use native.Mathlib.Nat.{div-add-mod', mod-lt, div-div-eq-div-mul}
use libswift.Base.{
  ℕ, zero, suc, ◌+◌, ◌-◌, ◌*◌, ◌/◌, ◌%◌, ◌^◌, ◌≤◌, ◌<◌, ◌≡◌, ap, sym, ◌∙◌, arith, Bool, true, false,
  ◌==◌, if◌then◌else◌,
}
use libswift.Bits.Fields.{
  and_fields, and_mask, and-zero, mod_double, pow_double, pow_pos, div_fields,
}
use libswift.Bits.Tail.{pow_add}

-- Digit `i` of a number.
abbrev pub digit : ℕ → ℕ → Bool
digit b i = b / 2 ^ i % 2 == 1

-- The bitmap of `w` equal digits.
abbrev pub fill : Bool → ℕ → ℕ
fill v w = if v then 2 ^ w - 1 else 0

pub digit-suc : (x j : ℕ) → digit x (suc j) ≡ digit (x / 2) j
digit-suc x j =
    let e : x / 2 / 2 ^ j ≡ x / 2 ^ suc j =
      div-div-eq-div-mul x 2 (2 ^ j) ∙ ap (λ (y : ℕ). x / y) (sym (pow_double j)) in
    ap (λ (y : ℕ). y % 2 == 1) (sym e)

-- The `w` low digits are all `v` exactly if the number is `fill v w` up to them.
pub all_digits_to : (v : Bool) (w x : ℕ) → x % 2 ^ w ≡ fill v w → (j : ℕ) → j < w → digit x j ≡ v
all_digits_to v zero x e j h = absurd (omega arith)
all_digits_to true (suc w) x e zero h = ground (arith, mod_double w x, pow_double w, pow_pos w)
all_digits_to false (suc w) x e zero h = ground (arith, mod_double w x, pow_double w, pow_pos w)
all_digits_to true (suc w) x e (suc j) h =
    digit-suc x j
    ∙ all_digits_to true w (x / 2) (omega (arith, e, mod_double w x, pow_double w, pow_pos w)) j
        (omega arith)
all_digits_to false (suc w) x e (suc j) h =
    digit-suc x j
    ∙ all_digits_to false w (x / 2) (omega (arith, e, mod_double w x, pow_double w, pow_pos w)) j
        (omega arith)

pub all_digits_from :
    (v : Bool) (w x : ℕ) → ((j : ℕ) → j < w → digit x j ≡ v) → x % 2 ^ w ≡ fill v w
all_digits_from true zero x f = omega arith
all_digits_from false zero x f = omega arith
all_digits_from true (suc w) x f =
    let rest =
      all_digits_from true w (x / 2) (λ j h. sym (digit-suc x j) ∙ f (suc j) (omega arith)) in
    ground (arith, mod_double w x, pow_double w, pow_pos w, f 0 (omega arith))
all_digits_from false (suc w) x f =
    let rest =
      all_digits_from false w (x / 2) (λ j h. sym (digit-suc x j) ∙ f (suc j) (omega arith)) in
    ground (arith, mod_double w x, pow_double w, pow_pos w, f 0 (omega arith))

-- A mask of `w` ones from digit `s` on.
abbrev pub mask : ℕ → ℕ → ℕ
mask s w = (2 ^ w - 1) * 2 ^ s

pub and-mask_from : (b s w : ℕ) → bit_and b (mask s w) ≡ (b / 2 ^ s) % 2 ^ w * 2 ^ s
and-mask_from b s w =
    let split : b / 2 ^ s * 2 ^ s + b % 2 ^ s ≡ b = div-add-mod' b (2 ^ s) in
    let tail : b % 2 ^ s < 2 ^ s = mod-lt b (pow_pos s) in
    let e : mask s w ≡ (2 ^ w - 1) * 2 ^ s + 0 = omega arith in
    ap (λ (x : ℕ). bit_and x (mask s w)) (sym split)
    ∙ ap (bit_and (b / 2 ^ s * 2 ^ s + b % 2 ^ s)) e
    ∙ and_fields s (b / 2 ^ s) (2 ^ w - 1) (b % 2 ^ s) 0 tail (pow_pos s)
    ∙ rw (and_mask w (b / 2 ^ s), and-zero (b % 2 ^ s)) (omega arith)

pub digit-shift : (b s j : ℕ) → digit (b / 2 ^ s) j ≡ digit b (s + j)
digit-shift b s j =
    let e : b / 2 ^ s / 2 ^ j ≡ b / 2 ^ (s + j) =
      div-div-eq-div-mul b (2 ^ s) (2 ^ j) ∙ ap (λ (y : ℕ). b / y) (sym (pow_add s j)) in
    ap (λ (y : ℕ). y % 2 == 1) e

-- The digits of a bitmap under a mask are all `v` exactly if the masked bitmap is that of `v`.
pub masked_to :
    (v : Bool) (b s w : ℕ)
    → bit_and b (mask s w) ≡ fill v w * 2 ^ s
    → (i : ℕ) → s ≤ i
    → i < s + w
    → digit b i ≡ v
masked_to v b s w e i p q =
    let back : s + (i - s) ≡ i = omega arith in
    ap (digit b) (sym back)
    ∙ sym (digit-shift b s (i - s))
    ∙ all_digits_to v w (b / 2 ^ s)
        (sym (div_fields (2 ^ s) _ 0 (pow_pos s))
          ∙ ap (λ (x : ℕ). (x + 0) / 2 ^ s) (sym (and-mask_from b s w) ∙ e)
          ∙ div_fields (2 ^ s) _ 0 (pow_pos s))
        (i - s) (omega arith)

pub masked_from :
    (v : Bool) (b s w : ℕ)
    → ((i : ℕ) → s ≤ i → i < s + w → digit b i ≡ v)
    → bit_and b (mask s w) ≡ fill v w * 2 ^ s
masked_from v b s w f =
    and-mask_from b s w
    ∙ ap (λ (x : ℕ). x * 2 ^ s)
        (all_digits_from v w (b / 2 ^ s)
          (λ j h. digit-shift b s j ∙ f (s + j) (omega arith) (omega arith)))
