-- ===== src/Binmap/Leads.antt =====
-- The first base bins of a half that are in the set (`true`), or that are not (`false`).
use native.Mathlib.Decide.{dec_lt, ℕ_discrete}
use native.Mathlib.Nat.{mul-le-mul_right}
use libswift.Base.{
  ℕ, zero, suc, ◌+◌, ◌-◌, ◌*◌, ◌/◌, ◌%◌, ◌^◌, ◌≤◌, ◌<◌, ◌≡◌, ◌≢◌, refl, ap, sym, ◌∙◌, arith, Bool,
  true, false, not, ==-eq_false, if◌then◌else◌, Option, some,
}
use libswift.Bits.Fields.{pow_double, pow_pos, mul_pow_double}
use libswift.Bits.Tail.{pow_add, exponent-le}
use libswift.Bin.{Bin, base_left}
use libswift.Bin.Layout.{node, InTree, node_fits}
use libswift.Bin.Interval.{base_left-node}
use libswift.Binmap.Bitmap.{bitmap_bin_in, bitmap_to_bin}
use libswift.Binmap.Query.{flip}
use libswift.Binmap.Digits.{digit, digit-suc, fill}
use libswift.Binmap.Uniform.{IsUniform, bits-IsUniform}
use libswift.Binmap.Found.{bitmap_to_bin-FirstIn}

-- `r` is a bin within the one at layer `k` and offset `n`; all its base bins are `v`, and none of
-- those before it under that bin is.
abbrev pub Leads : Bool → ℕ → ℕ → (ℕ → Bool) → Option Bin → Type 0
Leads v k n p r =
    (l : ℕ) × (o : ℕ) × (r ≡ some (node l o))
    × InTree l o
    × (n * 2 ^ k ≤ o * 2 ^ l)
    × (o * 2 ^ l + 2 ^ l ≤ n * 2 ^ k + 2 ^ k)
    × IsUniform v l o p
    × ((i : ℕ) → n * 2 ^ k ≤ i → i < o * 2 ^ l → p i ≡ not v)

-- The bitmap whose ones are sought.
abbrev pub sought : Bool → ℕ → ℕ
sought true b = b
sought false b = flip b

digit-complement : (w b j : ℕ) → j < w → b < 2 ^ w → digit (2 ^ w - 1 - b) j ≡ not (digit b j)
digit-complement zero b j h k = absurd (omega arith)
digit-complement (suc w) b zero h k = ground (arith, pow_double w, pow_pos w)
digit-complement (suc w) b (suc j) h k =
    let half : (2 ^ suc w - 1 - b) / 2 ≡ 2 ^ w - 1 - b / 2 = omega (arith, pow_double w) in
    digit-suc (2 ^ suc w - 1 - b) j
    ∙ ap (λ (x : ℕ). digit x j) half
    ∙ digit-complement w (b / 2) j (omega arith) (omega (arith, pow_double w))
    ∙ ap not (sym (digit-suc b j))

digit-sought :
    (v : Bool) (b j : ℕ) (x : Bool)
    → j < 32
    → b < 2 ^ 32
    → digit (sought v b) j ≡ x
    → digit b j ≡ (if v then x else not x)
digit-sought true b j x h k e = e
digit-sought false b j x h k e = ground (arith, digit-complement 32 b j h k, e)

bitmap_bin_in-lem :
    (n : Bin) (b v : ℕ)
    → bitmap_to_bin b ≡ some v
    → b ≢ 2 ^ 32 - 1
    → bitmap_bin_in n b ≡ some ((base_left n + v) % 2 ^ 64)
unfolding bitmap_bin_in
bitmap_bin_in-lem n b v e h = rw (==-eq_false b (2 ^ 32 - 1) h, e) refl

pub bitmap_bin_in-filled : (n : Bin) → bitmap_bin_in n (2 ^ 32 - 1) ≡ some n
unfolding bitmap_bin_in
bitmap_bin_in-filled n = refl

sought_small : (v : Bool) (b : ℕ) → b < 2 ^ 32 → sought v b < 2 ^ 32
sought_small true b h = h
sought_small false b h = omega arith

sought_some : (v : Bool) (b : ℕ) → b < 2 ^ 32 → b ≢ fill (not v) 32 → sought v b ≢ 0
sought_some true b h n e = n e
sought_some false b h n e = n (omega arith)

filled : (v : Bool) (b : ℕ) → b < 2 ^ 32 → sought v b ≡ 2 ^ 32 - 1 → b ≡ fill v 32
filled true b h e = e
filled false b h e = omega arith

to_true : (v : Bool) → (if v then true else not true) ≡ v
to_true true = refl
to_true false = refl

to_false : (v : Bool) → (if v then false else not false) ≡ not v
to_false true = refl
to_false false = refl

-- A bin inside one of the tree is one of the tree.
pub inside-InTree :
    (k n l o : ℕ) → InTree k n → l ≤ 63 → o * 2 ^ l + 2 ^ l ≤ n * 2 ^ k + 2 ^ k → InTree l o
inside-InTree k n l o t low inside =
    let whole : 2 ^ (63 - k) * 2 ^ k ≡ 2 ^ 63 =
      sym (pow_add (63 - k) k)
      ∙ ap (λ (x : ℕ). 2 ^ x) (let e : 63 - k + k ≡ 63 = omega (arith, t.0) in e) in
    let part : 2 ^ (63 - l) * 2 ^ l ≡ 2 ^ 63 =
      sym (pow_add (63 - l) l)
      ∙ ap (λ (x : ℕ). 2 ^ x) (let e : 63 - l + l ≡ 63 = omega arith in e) in
    let last : suc n ≤ 2 ^ (63 - k) = t.1 in
    (
      low,
      elim (dec_lt o (2 ^ (63 - l))) [
        | yes p ↦ p
        | no p ↦
            let q : 2 ^ (63 - l) ≤ o = omega arith in
            absurd (
              omega (
                arith,
                whole,
                part,
                inside,
                mul-le-mul_right (2 ^ k) last,
                mul-le-mul_right (2 ^ l) q,
                pow_pos l,
              ))
      ],
    )

-- A bin within the first 32 base bins of another.
module _ (k n l r : ℕ) (t : InTree k n) (deep : 5 ≤ k) (fits : r * 2 ^ l + 2 ^ l ≤ 32) where
  shift : ℕ
  shift = n * 2 ^ (k - l) + r

  low : l ≤ 5
  low = exponent-le l 5 (omega (arith, fits))

  shift-at : shift * 2 ^ l ≡ n * 2 ^ k + r * 2 ^ l
  unfolding shift
  shift-at =
      let e : k - l + l ≡ k = omega (arith, low) in
      omega (arith, ap (λ (x : ℕ). n * x) (sym (pow_add (k - l) l) ∙ ap (λ (x : ℕ). 2 ^ x) e))

  wide : (w : ℕ) × (n * 2 ^ k ≡ w * 32) × (32 ≤ 2 ^ k)
  wide =
      let e : k - 5 + 5 ≡ k = omega arith in
      let p : 2 ^ (k - 5) * 32 ≡ 2 ^ k = sym (pow_add (k - 5) 5) ∙ ap (λ (x : ℕ). 2 ^ x) e in
      (n * 2 ^ (k - 5), omega (arith, ap (λ (x : ℕ). n * x) p), omega (arith, p, pow_pos (k - 5)))

  shift-InTree : InTree l shift
  shift-InTree =
      inside-InTree k n l shift t (omega (arith, low)) (omega (arith, shift-at, wide.2, fits))

  shift-node : (base_left (node k n) + node l r) % 2 ^ 64 ≡ node l shift
  shift-node = omega (
    arith,
    base_left-node k n t,
    shift-at,
    mul_pow_double r l,
    mul_pow_double shift l,
    node_fits l shift shift-InTree,
    pow_double l,
    pow_pos l,
  )

-- A half that is one bitmap.
pub bits-Leads :
    (v : Bool) (k n b : ℕ)
    → 5 ≤ k
    → InTree k n
    → b < 2 ^ 32
    → b ≢ fill (not v) 32
    → Leads v k n (λ i. digit b (i % 32)) (bitmap_bin_in (node k n) (sought v b))
bits-Leads v k n b deep t h some_left = elim (ℕ_discrete (sought v b) (2 ^ 32 - 1)) [
  | yes e ↦
      let whole : bitmap_bin_in (node k n) (sought v b) ≡ some (node k n) =
        ap (bitmap_bin_in (node k n)) e ∙ bitmap_bin_in-filled (node k n) in
      let same : b ≡ fill v 32 = filled v b h e in
      (
        k,
        n,
        whole,
        t,
        omega arith,
        omega arith,
        (bits-IsUniform v k n b deep h).1 same,
        λ i p q. absurd (omega arith),
      )
  | no e ↦
      let (x, found, (l, r, named, fits, first)) =
        bitmap_to_bin-FirstIn (sought v b) (sought_small v b h) (sought_some v b h some_left) in
      let at = shift-at k n l r t deep fits in
      let w = wide k n l r t deep fits in
      let value =
        bitmap_bin_in-lem (node k n) (sought v b) x found e
        ∙ ap some (
            ap (λ (y : ℕ). (base_left (node k n) + y) % 2 ^ 64) named
            ∙ shift-node k n l r t deep fits) in
      let place : (i : ℕ) → n * 2 ^ k ≤ i → i < n * 2 ^ k + 32 → i % 32 ≡ i - n * 2 ^ k =
        λ i p q. omega (arith, w.1) in
      (
        l,
        shift k n l r t deep fits,
        value,
        shift-InTree k n l r t deep fits,
        omega (arith, at),
        omega (arith, at, w.2, fits),
        λ i p q.
            let m = place i (omega (arith, at)) (omega (arith, at, fits)) in
            digit-sought v b (i % 32) true (omega arith) h
              (first.1 (i % 32) (omega (arith, at, m)) (omega (arith, at, m)))
            ∙ to_true v,
        λ i p q.
            let m = place i p (omega (arith, at, fits)) in
            digit-sought v b (i % 32) false (omega arith) h
              (first.0 (i % 32) (omega (arith, at, m)))
            ∙ to_false v,
      )
]
