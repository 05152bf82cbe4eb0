-- ===== src/BinUtils/Swaps.antt =====
-- The second loop of `gen_peaks` reverses the array in place.
use mathlib.Core.List.{reverse, reverse-append}
use native.Mathlib.Decide.{ℕ_discrete, dec_lt, dec_le}
use libswift.Base.{
  ℕ, zero, suc, ◌+◌, ◌-◌, ◌*◌, ◌/◌, ◌≤◌, ◌<◌, ◌≡◌, ◌≢◌, ◌⊎◌, inl, inr, refl, ap, sym, ◌∙◌, arith,
  List, [], ◌∷◌, ◌++◌, length, get_or, set, length-append, length-set, get_or-set_self,
  get_or-set_ne, get_or-append_left, get_or-append_right, get_or_ext,
}
use libswift.Bin.{Bin}
use libswift.BinUtils.{swap_loop}

pub length-reverse : (xs : List Bin) → length (reverse xs) ≡ length xs
length-reverse [] = refl
length-reverse (x ∷ xs) =
    rw (reverse-append (x ∷ []) xs)
      (omega (arith, length-append (reverse xs) (x ∷ []), length-reverse xs))

get_or-reverse :
    (xs : List Bin) (j : ℕ)
    → j < length xs
    → get_or (reverse xs) j 0 ≡ get_or xs (length xs - 1 - j) 0
get_or-reverse [] j h = elim h [ ]
get_or-reverse (x ∷ xs) j h = rw (reverse-append (x ∷ []) xs) (elim (dec_lt j (length xs)) [
  | yes p ↦
      let e : suc (length xs) - 1 - j ≡ suc (length xs - 1 - j) = omega arith in
      get_or-append_left (reverse xs) (x ∷ []) j 0 (rw (length-reverse xs) p)
      ∙ get_or-reverse xs j p
      ∙ sym (ap (λ (i : ℕ). get_or (x ∷ xs) i 0) e)
  | no p ↦
      let e : j ≡ length (reverse xs) + 0 = omega (arith, length-reverse xs) in
      let z : 0 ≡ suc (length xs) - 1 - j = omega arith in
      ap (λ (i : ℕ). get_or (reverse xs ++ x ∷ []) i 0) e
      ∙ get_or-append_right (reverse xs) (x ∷ []) 0 0
      ∙ ap (λ (i : ℕ). get_or (x ∷ xs) i 0) z
])

-- The array with the entries `i` and `k` exchanged.
abbrev swapped : List Bin → ℕ → ℕ → List Bin
swapped xs i k = set (set xs k (get_or xs i 0)) i (get_or xs k 0)

module _ (xs : List Bin) (i k : ℕ) (hi : i < length xs) (hk : k < length xs) (ne : i ≢ k) where
  swapped_first : get_or (swapped xs i k) i 0 ≡ get_or xs k 0
  swapped_first = get_or-set_self _ i _ 0 (rw (length-set xs k (get_or xs i 0)) hi)

  swapped_second : get_or (swapped xs i k) k 0 ≡ get_or xs i 0
  swapped_second = get_or-set_ne _ i k _ 0 ne ∙ get_or-set_self xs k _ 0 hk

  swapped_other : (j : ℕ) → i ≢ j → k ≢ j → get_or (swapped xs i k) j 0 ≡ get_or xs j 0
  swapped_other j p q = get_or-set_ne _ i j _ 0 p ∙ get_or-set_ne xs k j _ 0 q

pub length-swap_loop : (n i pp : ℕ) (xs : List Bin) → length (swap_loop n i pp xs) ≡ length xs
unfolding swap_loop
length-swap_loop zero i pp xs = refl
length-swap_loop (suc n) i pp xs =
    length-swap_loop n (i + 1) pp (swapped xs i (pp - 1 - i))
    ∙ length-set (set xs (pp - 1 - i) (get_or xs i 0)) i _
    ∙ length-set xs (pp - 1 - i) _

-- The positions that `n` rounds from `i` on exchange.
abbrev Moved : ℕ → ℕ → ℕ → ℕ → Type 0
Moved i n pp j = ((i ≤ j) × (j < i + n)) ⊎ ((pp ≤ j + i + n) × (j + i < pp))

length-swapped : (xs : List Bin) (i k : ℕ) → length (swapped xs i k) ≡ length xs
length-swapped xs i k = length-set (set xs k (get_or xs i 0)) i _ ∙ length-set xs k _

swap_loop_unmoved :
    (n i pp : ℕ) (xs : List Bin) (j : ℕ)
    → length xs ≡ pp
    → 2 * (i + n) ≤ pp
    → ¬ (Moved i n pp j)
    → get_or (swap_loop n i pp xs) j 0 ≡ get_or xs j 0
unfolding swap_loop
swap_loop_unmoved zero i pp xs j e fits out = refl
swap_loop_unmoved (suc n) i pp xs j e fits out =
    swap_loop_unmoved n (i + 1) pp (swapped xs i (pp - 1 - i)) j
      (length-swapped xs i (pp - 1 - i) ∙ e) (omega arith)
      (λ m. out (elim m [ inl p ↦ inl (omega arith) | inr p ↦ inr (omega arith) ]))
    ∙ swapped_other xs i (pp - 1 - i) (omega arith) (omega arith) (omega arith) j
        (λ q. out (inl (omega arith))) (λ q. out (inr (omega arith)))

-- Mirrored, a position that is at neither end stays away from both.
away :
    (i n pp j k : ℕ)
    → k ≡ pp - 1 - i
    → 2 * (i + suc n) ≤ pp
    → i ≢ j
    → k ≢ j
    → Moved i (suc n) pp j
    → (i ≢ pp - 1 - j) × (k ≢ pp - 1 - j)
away i n pp j k e fits p q (inl m) = (omega arith, omega arith)
away i n pp j k e fits p q (inr m) = (omega arith, omega arith)

swap_loop-Moved :
    (n i pp : ℕ) (xs : List Bin) (j : ℕ)
    → length xs ≡ pp
    → 2 * (i + n) ≤ pp
    → Moved i n pp j
    → get_or (swap_loop n i pp xs) j 0 ≡ get_or xs (pp - 1 - j) 0
unfolding swap_loop
swap_loop-Moved zero i pp xs j e fits m =
    absurd (elim m [ inl p ↦ omega arith | inr p ↦ omega arith ])
swap_loop-Moved (suc n) i pp xs j e fits m =
    let k = pp - 1 - i in
    let ys = swapped xs i k in
    let len : length ys ≡ pp = length-swapped xs i k ∙ e in
    elim (ℕ_discrete i j) [
      | yes at_i ↦
          swap_loop_unmoved n (i + 1) pp ys j len (omega arith)
            (λ q. elim q [ inl a ↦ omega arith | inr b ↦ omega arith ])
          ∙ ap (λ (x : ℕ). get_or ys x 0) (sym at_i)
          ∙ swapped_first xs i k (omega arith) (omega arith) (omega arith)
          ∙ ap (λ (x : ℕ). get_or xs (pp - 1 - x) 0) at_i
      | no off_i ↦ elim (ℕ_discrete k j) [
        | yes at_k ↦
            let back : i ≡ pp - 1 - j = omega arith in
            swap_loop_unmoved n (i + 1) pp ys j len (omega arith)
              (λ q. elim q [ inl a ↦ omega arith | inr b ↦ omega arith ])
            ∙ ap (λ (x : ℕ). get_or ys x 0) (sym at_k)
            ∙ swapped_second xs i k (omega arith) (omega arith) (omega arith)
            ∙ ap (λ (x : ℕ). get_or xs x 0) back
        | no off_k ↦
            let inner : Moved (i + 1) n pp j = elim m [
              | inl a ↦ inl (omega arith)
              | inr b ↦ inr (omega arith)
            ] in
            let (p, q) = away i n pp j k refl fits off_i off_k m in
            swap_loop-Moved n (i + 1) pp ys j len (omega arith) inner
            ∙ swapped_other xs i k (omega arith) (omega arith) (omega arith) (pp - 1 - j) p q
      ]
    ]

mirrored :
    (xs : List Bin) (j : ℕ)
    → j < length xs
    → get_or (swap_loop (length xs / 2) 0 (length xs) xs) j 0 ≡ get_or xs (length xs - 1 - j) 0
mirrored xs j h =
    let n = length xs in
    elim (dec_lt j (n / 2)) [
      | yes low ↦ swap_loop-Moved (n / 2) 0 n xs j refl (omega arith) (inl (omega arith))
      | no low ↦ elim (dec_le n (j + n / 2)) [
        | yes high ↦ swap_loop-Moved (n / 2) 0 n xs j refl (omega arith) (inr (omega arith))
        | no high ↦
            let middle : j ≡ n - 1 - j = omega arith in
            swap_loop_unmoved (n / 2) 0 n xs j refl (omega arith)
              (λ q. elim q [ inl a ↦ omega arith | inr b ↦ omega arith ])
            ∙ ap (λ (i : ℕ). get_or xs i 0) middle
      ]
    ]

-- With half as many rounds as entries, the loop reverses the array.
pub swap_loop-reverse : (xs : List Bin) → swap_loop (length xs / 2) 0 (length xs) xs ≡ reverse xs
swap_loop-reverse xs =
    let len = length-swap_loop (length xs / 2) 0 (length xs) xs in
    get_or_ext _ _ 0 (len ∙ sym (length-reverse xs)) λ j p.
      let p' : j < length xs = omega (arith, len) in mirrored xs j p' ∙ sym (get_or-reverse xs j p')
