-- ===== src/HashTree/Kin.antt =====
-- The bins between a chunk and its peak: `Under` as inclusion of intervals, room for their
-- numbers, and what `peak_for` finds.
use native.Mathlib.Decide.{dec_le}
use native.Mathlib.Nat.{pow-le-pow_right, mul-le-mul_right, le_of_mul-le-mul_right}
use mathlib.Core.Path.{subst}
use libswift.Base.{
  ℕ, zero, suc, ◌+◌, ◌-◌, ◌*◌, ◌/◌, ◌^◌, ◌≤◌, ◌<◌, ◌≡◌, ◌⊎◌, inl, inr, List, [], ◌∷◌, refl, ap, sym,
  ◌∙◌, arith, Bool-cases,
}
use libswift.Bits.Fields.{pow_double, pow_pos, mul_pow_double}
use libswift.Bits.Tail.{pow_add}
use libswift.BinUtils.Peaks.{peak-InTree}
use libswift.Bin.{Bin, none_bin, of_layer, contains}
use libswift.Bin.Layout.{node, InTree, of_layer-node}
use libswift.Bin.Interval.{Within, contains-Within}
use libswift.HashTree.State.{peak_for}
use libswift.HashTree.Spec.{Under, HasPeak, HasRoom, ArePeaks}

pub Under-layer : (d m n l o : ℕ) → Under d m n l o → m ≡ d + l
Under-layer zero m n l o u = omega arith
Under-layer (suc d) m n l o u = omega (arith, Under-layer d m n (suc l) (o / 2) u)

-- Quotients by powers of two, one layer at a time.
Under-range : (d l n o : ℕ) → n * 2 ^ d ≤ o → o < n * 2 ^ d + 2 ^ d → Under d (d + l) n l o
Under-range zero l n o p q = omega arith
Under-range (suc d) l n o p q =
    let e : d + suc l ≡ suc d + l = omega arith in
    subst (λ (m : ℕ). Under d m n (suc l) (o / 2)) e
      (Under-range d (suc l) n (o / 2) (omega (arith, mul_pow_double n d))
        (omega (arith, mul_pow_double n d, pow_double d)))

-- A bin within another lies under it.
pub Within-Under : (l o m n : ℕ) → Within l o m n → (d : ℕ) × Under d m n l o
Within-Under l o m n w = elim (dec_le l m) [
  | yes p ↦
      let d = m - l in
      let e : d + l ≡ m = omega arith in
      let width : 2 ^ m ≡ 2 ^ d * 2 ^ l = ap (λ (k : ℕ). 2 ^ k) (sym e) ∙ pow_add d l in
      let scaled : n * 2 ^ m ≡ n * 2 ^ d * 2 ^ l = omega (arith, ap (λ (k : ℕ). n * k) width) in
      let first : n * 2 ^ d ≤ o = le_of_mul-le-mul_right {k = 2 ^ l} (omega arith) (pow_pos l) in
      let last : suc o ≤ n * 2 ^ d + 2 ^ d =
        le_of_mul-le-mul_right {k = 2 ^ l} (omega arith) (pow_pos l) in
      (d, subst (λ (k : ℕ). Under d k n l o) e (Under-range d l n o first last))
  | no p ↦ absurd (
      omega (
        arith,
        pow_pos m,
        pow_double m,
        pow-le-pow_right {n = 2} (omega arith) (let q : suc m ≤ l = omega arith in q),
      ))
]

pub Under-HasRoom : (d m n l o : ℕ) → Under d m n l o → HasRoom m n → HasRoom l o
Under-HasRoom zero m n l o u r =
    subst (λ (k : ℕ). HasRoom k o) (sym u.0) (subst (HasRoom m) (sym u.1) r)
Under-HasRoom (suc d) m n l o u r =
    let up = Under-HasRoom d m n (suc l) (o / 2) u r in
    let half : suc o ≤ o / 2 * 2 + 2 = omega arith in
    omega (arith, up, mul_pow_double (o / 2) l, pow_double l, mul-le-mul_right (2 ^ l) half)

pub HasRoom-InTree : (l o : ℕ) → HasRoom l o → InTree l o
HasRoom-InTree l o r =
    let e : suc o - 1 ≡ o = omega arith in
    subst (InTree l) e (peak-InTree (suc o) l (omega arith) (omega arith))

-- The number of such a bin names a base bin.
pub node_number : (l o : ℕ) → HasRoom l o → InTree 0 (node l o)
node_number l o r = (omega arith, omega (arith, pow_double l, mul_pow_double o l))

pub of_layer-number : (l o : ℕ) → HasRoom l o → of_layer 0 (node l o) ≡ node 0 (node l o)
of_layer-number l o r = of_layer-node 0 (node l o) (node_number l o r)

-- `peak_for` gives NONE, or a peak under which the bin lies.
pub peak_for-Under {ℓ} :
    {A : Type ℓ} (ps : List (Bin × A)) (l o : ℕ)
    → ArePeaks ps
    → InTree l o
    → (peak_for ps (node l o) ≡ none_bin)
      ⊎ ((m : ℕ) × (n : ℕ) × (d : ℕ) × (peak_for ps (node l o) ≡ node m n)
          × HasPeak ps m n
          × InTree m n
          × HasRoom m n
          × Under d m n l o)
unfolding peak_for
peak_for-Under [] l o ok t = inl refl
peak_for-Under ((p, a) ∷ ps) l o ((m, n, e, tm, room), rest) t =
    elim (Bool-cases (contains p (node l o))) [
      | inl hit ↦
          let (d, u) = Within-Under l o m n (
            (contains-Within m n l o tm t).0
              (ap (λ (v : Bin). contains v (node l o)) (sym e) ∙ hit)) in
          inr (m, n, d, rw hit e, inl e, tm, room, u)
      | inr miss ↦ elim (peak_for-Under ps l o rest t) [
        | inl gone ↦ inl (rw miss gone)
        | inr (m', n', d, e', has, tm', room', u) ↦
            inr (m', n', d, rw miss e', inr has, tm', room', u)
      ]
    ]

-- What lies under a bin that lies under a third lies under the third.
pub Under-trans : (m n e d l o k x : ℕ) → Under e l o k x → Under d m n l o → Under (e + d) m n k x
Under-trans m n zero d l o k x v u =
    let z : d ≡ 0 + d = omega arith in
    subst (λ (y : ℕ). Under y m n k x) z
      (subst (λ (y : ℕ). Under d m n y x) (sym v.0) (subst (Under d m n l) (sym v.1) u))
Under-trans m n (suc e) d l o k x v u =
    let z : suc (e + d) ≡ suc e + d = omega arith in
    subst (λ (y : ℕ). Under y m n k x) z (Under-trans m n e d l o (suc k) (x / 2) v u)
