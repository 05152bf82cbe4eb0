-- ===== src/BinUtils/Peaks.antt =====
-- The peaks of a length: the bins that tile the content from left to right, the largest first.
use native.Mathlib.Nat.{mul-le-mul_right, mul-le-mul_left, lt_of_mul-lt-mul_right, pow-le-pow_right}
use native.Mathlib.Decide.{dec_le, ℕ_discrete}
use mathlib.Core.Path.{subst}
use mathlib.Core.List.{reverse, reverse-append}
use libswift.Base.{
  ℕ, zero, suc, ◌+◌, ◌-◌, ◌*◌, ◌/◌, ◌%◌, ◌^◌, ◌≤◌, ◌<◌, ◌≡◌, ◌≢◌, refl, ap, sym, ◌∙◌, arith, List,
  [], ◌∷◌, ◌++◌, length, ==_iff, ==-eq_false,
}
use libswift.Word.{u64, sub64, shl64}
use libswift.Bits.Fields.{pow_double, pow_pos, mul_pow_double}
use libswift.Bits.Tail.{pow_add}
use native.Mathlib.Numerals.{add-one}
use libswift.Bin.Family.{and-one}
use libswift.Bin.{Bin, none_bin, base_offset, base_length}
use libswift.Bin.Layout.{node, InTree}
use libswift.Bin.Interval.{base_offset-node, base_length-node}
use libswift.BinUtils.{peak_loop, PeakList, gen_peaks}
use libswift.BinUtils.Swaps.{swap_loop-reverse, length-reverse}

-- The bins lie side by side from the base bin `start` up to `end`.
abbrev pub Tiles : ℕ → List Bin → ℕ → Type 0
Tiles start [] finish = start ≡ finish
Tiles start (p ∷ ps) finish = (base_offset p ≡ start) × Tiles (start + base_length p) ps finish

-- Each bin is a node of the tree, of a lower layer than `bound` and all before it.
abbrev pub Falling : ℕ → List Bin → Type 0
Falling bound [] = Unit
Falling bound (p ∷ ps) =
    (l : ℕ) × (o : ℕ) × (p ≡ node l o) × InTree l o × (l < bound) × Falling l ps

Falling-suc : (k : ℕ) (ps : List Bin) → Falling k ps → Falling (suc k) ps
Falling-suc k [] h = tt
Falling-suc k (p ∷ ps) (l, o, e, t, lt, rest) = (l, o, e, t, omega arith, rest)

Falling-top : (k : ℕ) (ps : List Bin) → Falling k ps → Falling 64 ps
Falling-top k [] h = tt
Falling-top k (p ∷ ps) (l, o, e, t, lt, rest) = (l, o, e, t, omega arith, rest)

-- A peak that the loop writes: the last bin of the length that is left.
peak_value : ℕ → ℕ → Bin
peak_value len k = sub64 (shl64 (sub64 (u64 (2 * len)) 1) k) 1

pub peak-InTree : (len k : ℕ) → 0 < len → len * 2 ^ k < 2 ^ 63 → InTree k (len - 1)
peak-InTree len k pos fits =
    let wide : 1 * 2 ^ k ≤ len * 2 ^ k = mul-le-mul_right (2 ^ k) pos in
    let low : k ≤ 63 = elim (dec_le k 63) [
      | yes p ↦ p
      | no p ↦ absurd (
          omega (
            arith,
            wide,
            pow-le-pow_right {n = 2} (omega arith) (let q : 63 ≤ k = omega arith in q),
          ))
    ] in
    let same : 63 - k + k ≡ 63 = omega arith in
    let below : len - 1 < 2 ^ (63 - k) = lt_of_mul-lt-mul_right (2 ^ k) (
      omega (
        arith,
        ap (λ (x : ℕ). 2 ^ x) same,
        pow_add (63 - k) k,
        mul-le-mul_right (2 ^ k) (let q : len - 1 ≤ len = omega arith in q),
      )) in
    (low, below)

peak_value-node : (len k : ℕ) → 0 < len → len * 2 ^ k < 2 ^ 63 → peak_value len k ≡ node k (len - 1)
unfolding peak_value
peak_value-node len k pos fits =
    let wide : len * 1 ≤ len * 2 ^ k = mul-le-mul_left len (pow_pos k) in
    let odd : sub64 (u64 (2 * len)) 1 ≡ 2 * (len - 1) + 1 = omega arith in
    let split : len ≡ len - 1 + 1 = omega arith in
    rw odd (
      omega (
        arith,
        pow_pos k,
        pow_double k,
        mul_pow_double (len - 1) k,
        ap (λ (x : ℕ). x * 2 ^ k) split,
      ))

-- What the loop keeps: the peaks so far, read from the last, tile the part of the content behind
-- the length that is left.
record Behind (n len k : ℕ) (peaks : List Bin) : Type 0 where
  tiled : Tiles (len * 2 ^ k) (reverse peaks) n
  falling : Falling k (reverse peaks)

reverse-snoc : (ps : List Bin) (p : Bin) → reverse (ps ++ p ∷ []) ≡ p ∷ reverse ps
reverse-snoc ps p = reverse-append ps (p ∷ [])

half_scaled :
    (len k r : ℕ) → len ≡ 2 * (len / 2) + r → len * 2 ^ k ≡ len / 2 * 2 ^ suc k + r * 2 ^ k
half_scaled len k r e = omega (arith, mul_pow_double (len / 2) k, ap (λ (x : ℕ). x * 2 ^ k) e)

Behind-even :
    (n len k : ℕ) (ps : List Bin) → len % 2 ≡ 0 → Behind n len k ps → Behind n (len / 2) (suc k) ps
Behind-even n len k ps even b =
    let same : len * 2 ^ k ≡ len / 2 * 2 ^ suc k =
      omega (arith, half_scaled len k 0 (omega arith)) in
    record {
      tiled = subst (λ (x : ℕ). Tiles x (reverse ps) n) same b.tiled;
      falling = Falling-suc k (reverse ps) b.falling;
    }

Behind-odd :
    (n len k : ℕ) (ps : List Bin)
    → len % 2 ≡ 1
    → n < 2 ^ 63
    → len * 2 ^ k ≤ n
    → Behind n len k ps
    → Behind n (len / 2) (suc k) (ps ++ peak_value len k ∷ [])
Behind-odd n len k ps odd small fits b =
    let value = peak_value-node len k (omega arith) (omega arith) in
    let t = peak-InTree len k (omega arith) (omega arith) in
    let split : len ≡ len - 1 + 1 = omega arith in
    let sum : len * 2 ^ k ≡ (len - 1) * 2 ^ k + 2 ^ k =
      omega (arith, ap (λ (x : ℕ). x * 2 ^ k) split) in
    let first : (len - 1) * 2 ^ k ≡ len / 2 * 2 ^ suc k =
      omega (arith, sum, half_scaled len k 1 (omega arith)) in
    let rest : Tiles ((len - 1) * 2 ^ k + 2 ^ k) (reverse ps) n =
      subst (λ (x : ℕ). Tiles x (reverse ps) n) sum b.tiled in
    let node_tiled : Tiles (len / 2 * 2 ^ suc k) (node k (len - 1) ∷ reverse ps) n =
      subst (λ (x : ℕ). Tiles x (node k (len - 1) ∷ reverse ps) n) first
        (
          base_offset-node k (len - 1) t,
          subst (λ (x : ℕ). Tiles ((len - 1) * 2 ^ k + x) (reverse ps) n)
              (sym (base_length-node k (len - 1) t)) rest,
        ) in
    let node_falling : Falling (suc k) (node k (len - 1) ∷ reverse ps) =
      (k, len - 1, refl, t, omega arith, b.falling) in
    let e : node k (len - 1) ∷ reverse ps ≡ reverse (ps ++ peak_value len k ∷ []) =
      ap (λ (v : Bin). v ∷ reverse ps) (sym value) ∙ sym (reverse-snoc ps (peak_value len k)) in
    record {
      tiled = subst (λ (qs : List Bin). Tiles (len / 2 * 2 ^ suc k) qs n) e node_tiled;
      falling = subst (Falling (suc k)) e node_falling;
    }

-- The three ways through a round of the loop.
module _ (fuel len k : ℕ) (ps : List Bin) where
  loop_done : len ≡ 0 → peak_loop (suc fuel) len k ps ≡ ps
  unfolding peak_loop
  loop_done h = rw ((==_iff len 0).1 h)

  loop_even :
      len ≢ 0 → len % 2 ≡ 0 → peak_loop (suc fuel) len k ps ≡ peak_loop fuel (len / 2) (suc k) ps
  unfolding peak_loop
  loop_even h even = rw (==-eq_false len 0 h, and-one len, even, add-one k)

  loop_odd :
      len ≢ 0
      → len % 2 ≡ 1
      → peak_loop (suc fuel) len k ps
        ≡ peak_loop fuel (len / 2) (suc k) (ps ++ peak_value len k ∷ [])
  unfolding peak_loop peak_value
  loop_odd h odd = rw (==-eq_false len 0 h, and-one len, odd, add-one k)

-- The loop with enough fuel ends with peaks that tile the whole content.
peak_loop-Behind :
    (fuel n len k : ℕ) (ps : List Bin)
    → n < 2 ^ 63
    → len < 2 ^ fuel
    → len * 2 ^ k ≤ n
    → Behind n len k ps
    → (top : ℕ) × Behind n 0 top (peak_loop fuel len k ps)
peak_loop-Behind zero n len k ps small enough fits b =
    let z : len ≡ 0 = omega arith in
    (k, subst (λ (x : ℕ). Behind n x k (peak_loop zero len k ps)) z (unfold peak_loop in b))
peak_loop-Behind (suc fuel) n len k ps small enough fits b = elim (ℕ_discrete len 0) [
  | yes done ↦ (k, rw (loop_done fuel len k ps done) (subst (λ (x : ℕ). Behind n x k ps) done b))
  | no more ↦ elim (ℕ_discrete (len % 2) 0) [
    | yes even ↦
        let (top, r) =
          peak_loop-Behind fuel n (len / 2) (suc k) ps small (omega (arith, pow_double fuel))
            (omega (arith, half_scaled len k 0 (omega arith))) (Behind-even n len k ps even b) in
        (top, rw (loop_even fuel len k ps more even) r)
    | no odd ↦
        let odd' : len % 2 ≡ 1 = omega arith in
        let (top, r) =
          peak_loop-Behind fuel n (len / 2) (suc k) (ps ++ peak_value len k ∷ []) small
            (omega (arith, pow_double fuel)) (omega (arith, half_scaled len k 1 (omega arith)))
            (Behind-odd n len k ps odd' small fits b) in
        (top, rw (loop_odd fuel len k ps more odd') r)
  ]
]

-- What `gen_peaks` promises of a length: the array holds `count` peaks and NONE behind them; the
-- peaks are bins of the tree, of falling layers, and lie side by side over the whole length.
pub record IsPeaks (n : ℕ) (r : PeakList) (peaks : List Bin) : Type 0 where
  pub bins : r.bins ≡ peaks ++ none_bin ∷ []
  pub count : r.count ≡ length peaks
  pub tiled : Tiles 0 peaks n
  pub falling : Falling 64 peaks

-- `gen_peaks` of a length below 2 ^ 63 writes and counts the peaks of that length: bins of the tree
-- of falling layers, side by side from base bin 0 up to the length, with NONE behind them.
pub gen_peaks-IsPeaks : (n : ℕ) → n < 2 ^ 63 → (peaks : List Bin) × IsPeaks n (gen_peaks n) peaks
unfolding gen_peaks
gen_peaks-IsPeaks n small =
    let start : Behind n n 0 [] = record { tiled = omega arith; falling = tt } in
    let (top, b) = peak_loop-Behind 65 n n 0 [] small (omega arith) (omega arith) start in
    let peaks = peak_loop 65 n 0 [] in
    let none_left : 0 * 2 ^ top ≡ 0 = omega arith in
    (
      reverse peaks,
      record {
        bins = rw (swap_loop-reverse peaks);
        count = sym (length-reverse peaks);
        tiled = subst (λ (x : ℕ). Tiles x (reverse peaks) n) none_left b.tiled;
        falling = Falling-top top (reverse peaks) b.falling;
      },
    )
