-- ===== src/Binmap/Chain.antt =====
-- Chains of free cells.
use native.Mathlib.Decide.{ℕ_discrete}
use mathlib.Core.Path.{subst}
use libswift.Base.{
  ℕ, zero, suc, ◌+◌, ◌≤◌, ◌<◌, ◌≡◌, ◌≢◌, refl, ap, sym, ◌∙◌, arith, true, List, [], ◌∷◌, length,
}
use libswift.Binmap.Heap.{Cell}

abbrev pub Apart : ℕ → List ℕ → Type 0
Apart x [] = Unit
Apart x (y ∷ ys) = (x ≢ y) × Apart x ys

abbrev pub Below : ℕ → List ℕ → Type 0
Below n [] = Unit
Below n (y ∷ ys) = (y < n) × Below n ys

-- The free cells `xs`, each marked free, are chained from `top` on, and no cell is there twice.
abbrev pub Chained : (ℕ → Cell) → List ℕ → ℕ → Type 0
Chained f [] top = Unit
Chained f (x ∷ xs) top = (top ≡ x) × ((f x).is_free ≡ true) × Apart x xs × Chained f xs (f x).left

-- A chain stays as long as its own cells do.
pub Chained-same :
    (f g : ℕ → Cell) (xs : List ℕ) (top : ℕ)
    → Chained f xs top
    → ((x : ℕ) → ¬ Apart x xs → g x ≡ f x)
    → Chained g xs top
Chained-same f g [] top c same = tt
Chained-same f g (x ∷ xs) top (e, free, apart, rest) same =
    let here : g x ≡ f x = same x (λ a. a.0 refl) in
    (
      e,
      ap (λ (y : Cell). y.is_free) here ∙ free,
      apart,
      subst (Chained g xs) (sym (ap (λ (y : Cell). y.left) here))
          (Chained-same f g xs (f x).left rest (λ y a. same y (λ b. a b.1))),
    )

pub Apart-not : (x y : ℕ) (xs : List ℕ) → Apart x xs → ¬ Apart y xs → x ≢ y
Apart-not x y xs a n e = n (subst (λ (z : ℕ). Apart z xs) e a)

pub Below-not : (n y : ℕ) (xs : List ℕ) → Below n xs → ¬ Apart y xs → y < n
Below-not n y [] b a = absurd (a tt)
Below-not n y (x ∷ xs) b a = elim (ℕ_discrete y x) [
  | yes e ↦ omega (arith, b.0)
  | no e ↦ Below-not n y xs b.1 (λ z. a (e, z))
]

-- The new cells, `d` of them from `i` on, before the old free ones.
unfoldable pub run : ℕ → ℕ → List ℕ → List ℕ
run zero i xs = xs
run (suc d) i xs = i ∷ run d (i + 1) xs

pub length-run : (d i : ℕ) (xs : List ℕ) → length (run d i xs) ≡ d + length xs
unfolding run
length-run zero i xs = omega arith
length-run (suc d) i xs = omega (arith, length-run d (i + 1) xs)

pub run-Below : (d i n : ℕ) (xs : List ℕ) → i + d ≤ n → Below n xs → Below n (run d i xs)
unfolding run
run-Below zero i n xs h b = b
run-Below (suc d) i n xs h b = (omega arith, run-Below d (i + 1) n xs (omega arith) b)

pub Below-up : (m n : ℕ) (xs : List ℕ) → m ≤ n → Below m xs → Below n xs
Below-up m n [] h b = tt
Below-up m n (x ∷ xs) h b = (omega (arith, b.0), Below-up m n xs h b.1)

pub run-Apart : (d i x n : ℕ) (xs : List ℕ) → x < i → n ≤ x → Below n xs → Apart x (run d i xs)
unfolding run
run-Apart zero i x n [] h k b = tt
run-Apart zero i x n (y ∷ ys) h k b =
    ((λ e. absurd (omega (arith, b.0, e))), run-Apart zero i x n ys h k b.1)
run-Apart (suc d) i x n xs h k b =
    ((λ e. absurd (omega (arith, e))), run-Apart d (i + 1) x n xs (omega arith) k b)
