-- ===== src/Bits/Fields.antt =====
-- `&`, `|` and `^` work on the fields of a number one by one: the digits from position `k` on do
-- not meet those below. So an operation on a shifted field with a known tail is arithmetic.
use Prim.Native.Nat.{min, max, bit_and, bit_or, bit_xor}
use mathlib.Core.WellFounded
use native.Mathlib.Nat.{pow-suc, one-le-pow, div-add-mod', mul-le-mul_right, le-mul_of_pos_right}
use libswift.Base.{
  ℕ, zero, suc, ◌+◌, ◌-◌, ◌*◌, ◌/◌, ◌%◌, ◌^◌, ◌≤◌, ◌<◌, ◌≡◌, refl, ap, sym, ◌∙◌, arith, lt_wf,
}
use libswift.Bits.Step.{and_step, or_step, xor_step}

pub pow_double : (k : ℕ) → 2 ^ suc k ≡ 2 * 2 ^ k
pow_double k = omega (arith, pow-suc 2 k)

pub pow_pos : (k : ℕ) → 1 ≤ 2 ^ k
pow_pos k = one-le-pow k 2 (omega arith)

pub mul_pow_double : (a k : ℕ) → a * 2 ^ suc k ≡ 2 * (a * 2 ^ k)
mul_pow_double a k = omega (arith, ap (λ (t : ℕ). a * t) (pow-suc 2 k))

module _ (op f : ℕ → ℕ → ℕ) (step : (a b : ℕ) → op a b ≡ op (a / 2) (b / 2) * 2 + f (a % 2) (b % 2))
    (none : op 0 0 ≡ 0) where
  op_fields :
      (k a b r s : ℕ)
      → r < 2 ^ k
      → s < 2 ^ k
      → op (a * 2 ^ k + r) (b * 2 ^ k + s) ≡ op a b * 2 ^ k + op r s
  op_fields zero a b r s p q = ground (arith, none)
  op_fields (suc k) a b r s p q = ground (
    arith,
    step (a * 2 ^ suc k + r) (b * 2 ^ suc k + s),
    step r s,
    mul_pow_double a k,
    mul_pow_double b k,
    mul_pow_double (op a b) k,
    pow_double k,
    op_fields k a b (r / 2) (s / 2),
  )

-- The two operands are written with the same split into a head and a tail of `k` digits.
pub and_fields :
    (k a b r s : ℕ)
    → r < 2 ^ k
    → s < 2 ^ k
    → bit_and (a * 2 ^ k + r) (b * 2 ^ k + s) ≡ bit_and a b * 2 ^ k + bit_and r s
and_fields = op_fields bit_and min and_step refl

pub or_fields :
    (k a b r s : ℕ)
    → r < 2 ^ k
    → s < 2 ^ k
    → bit_or (a * 2 ^ k + r) (b * 2 ^ k + s) ≡ bit_or a b * 2 ^ k + bit_or r s
or_fields = op_fields bit_or max or_step refl

pub xor_fields :
    (k a b r s : ℕ)
    → r < 2 ^ k
    → s < 2 ^ k
    → bit_xor (a * 2 ^ k + r) (b * 2 ^ k + s) ≡ bit_xor a b * 2 ^ k + bit_xor r s
xor_fields = op_fields bit_xor (λ x y. (x + y) % 2) xor_step refl

module _ {ℓ} (P : ℕ → Type ℓ) where
  -- Induction on the digits.
  pub digit_induction : P 0 → ((a : ℕ) → P (suc a / 2) → P (suc a)) → (a : ℕ) → P a
  digit_induction base step a = WellFounded.induction lt_wf a go
    where
      go : (n : ℕ) → ((m : ℕ) → m < n → P m) → P n
      go zero ih = base
      go (suc n) ih = step n (ih (suc n / 2) (omega arith))

pub and-zero : (a : ℕ) → bit_and a 0 ≡ 0
and-zero = digit_induction (λ a. bit_and a 0 ≡ 0) refl (λ a ih. omega (arith, and_step (suc a) 0))

pub or-zero : (a : ℕ) → bit_or a 0 ≡ a
or-zero = digit_induction (λ a. bit_or a 0 ≡ a) refl (λ a ih. omega (arith, or_step (suc a) 0))

pub xor-zero : (a : ℕ) → bit_xor a 0 ≡ a
xor-zero = digit_induction (λ a. bit_xor a 0 ≡ a) refl (λ a ih. omega (arith, xor_step (suc a) 0))

pub and_self : (a : ℕ) → bit_and a a ≡ a
and_self =
    digit_induction (λ a. bit_and a a ≡ a) refl (λ a ih. omega (arith, and_step (suc a) (suc a)))

pub or_self : (a : ℕ) → bit_or a a ≡ a
or_self =
    digit_induction (λ a. bit_or a a ≡ a) refl (λ a ih. omega (arith, or_step (suc a) (suc a)))

pub xor_self : (a : ℕ) → bit_xor a a ≡ 0
xor_self =
    digit_induction (λ a. bit_xor a a ≡ 0) refl (λ a ih. omega (arith, xor_step (suc a) (suc a)))

-- The head and the tail of a number that is written by its fields.
pub div_fields : (m q r : ℕ) → r < m → (q * m + r) / m ≡ q
div_fields m q r h = grind arith

pub mod_fields : (m q r : ℕ) → r < m → (q * m + r) % m ≡ r
mod_fields m q r h = grind arith

pub mod_double : (k a : ℕ) → a % 2 ^ suc k ≡ (a / 2) % 2 ^ k * 2 + a % 2
mod_double k a =
    let q = a / 2 / 2 ^ k in
    let r = (a / 2) % 2 ^ k in
    let split : a ≡ q * 2 ^ suc k + (2 * r + a % 2) =
      omega (arith, mul_pow_double q k, div-add-mod' (a / 2) (2 ^ k)) in
    omega (
      arith,
      ap (λ (t : ℕ). t % 2 ^ suc k) split,
      mod_fields (2 ^ suc k) q (2 * r + a % 2) (omega (arith, pow_double k, pow_pos k)),
    )

-- A mask of `k` ones keeps the `k` lowest digits.
pub and_mask : (k a : ℕ) → bit_and a (2 ^ k - 1) ≡ a % 2 ^ k
and_mask zero a = ground (arith, and-zero a)
and_mask (suc k) a =
    ground (
      arith,
      and_step a (2 ^ suc k - 1),
      and_mask k (a / 2),
      mod_double k a,
      pow_double k,
      pow_pos k,
    )

-- No digit is common to a number and its complement in `k` digits.
pub and_complement : (k a : ℕ) → a < 2 ^ k → bit_and a (2 ^ k - 1 - a) ≡ 0
and_complement zero a h = ground (arith, and-zero a)
and_complement (suc k) a h =
    ground
      (arith, and_step a (2 ^ suc k - 1 - a), and_complement k (a / 2), pow_double k, pow_pos k)

pub div_double : (k a : ℕ) → a / 2 ^ k / 2 ≡ a / 2 ^ suc k
div_double k a =
    let q = a / 2 ^ k in
    let split : a ≡ q / 2 * 2 ^ suc k + (q % 2 * 2 ^ k + a % 2 ^ k) =
      (let halves : q ≡ q / 2 * 2 + q % 2 = omega arith in
        omega (
          arith,
          div-add-mod' a (2 ^ k),
          mul_pow_double (q / 2) k,
          ap (λ (t : ℕ). t * 2 ^ k) halves,
        )) in
    let digit : q % 2 ≤ 1 = omega arith in
    sym (
      ap (λ (t : ℕ). t / 2 ^ suc k) split
      ∙ div_fields (2 ^ suc k) (q / 2) (q % 2 * 2 ^ k + a % 2 ^ k)
          (omega (arith, pow_double k, pow_pos k, mul-le-mul_right (2 ^ k) digit)))

pub div-le : (a k : ℕ) → a / 2 ^ k ≤ a
div-le a k =
    omega (arith, div-add-mod' a (2 ^ k), le-mul_of_pos_right {m = 2 ^ k} (a / 2 ^ k) (pow_pos k))
