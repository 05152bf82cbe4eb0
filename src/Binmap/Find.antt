-- ===== src/Binmap/Find.antt =====
-- binmap.cpp: the loop of `find_empty` and of `find_filled`, down to the first bitmap that is not all
-- of the other kind.
use mathlib.Core.Path.{subst}
use native.Mathlib.Decide.{ℕ_discrete}
use libswift.Base.{
  ℕ, zero, suc, ◌+◌, ◌*◌, ◌≤◌, ◌<◌, ◌≡◌, ◌≢◌, refl, ap, sym, ◌∙◌, arith, Bool, false, not,
  Bool-cases, inl, inr, ◌==◌, ==_iff, ==-eq_false, if◌then◌else◌, Option, some, none,
}
use libswift.Bin.{Bin, left, right}
use libswift.Bin.Steps.{to_left, to_right}
use libswift.Bin.Layout.{node, InTree}
use libswift.Bin.Family.{left-node, right-node}
use libswift.Bin.Laws.{children-InTree}
use libswift.Binmap.Bitmap.{bitmap_bin_in}
use libswift.Binmap.Heap.{Binmap}
use libswift.Binmap.Query.{find_loop, bin_found}
use libswift.Binmap.Digits.{fill}
use libswift.Binmap.Shape.{Half, bits, sub, holds, Stores, IsDeep, IsPacked, AreMixed}
use libswift.Binmap.Uniform.{bits-IsUniform}
use libswift.Binmap.Leads.{Leads, sought, bits-Leads}
use libswift.Binmap.Lift.{lift_left, lift_right}

-- One round of the loop.
abbrev round : {A : Type 0} → Bool → Bool → Bool → Bool → A → A → A → A → A → A
round left_ref left_skipped right_ref right_skipped go_left here_left go_right failed here_right =
    if left_ref
    then go_left
    else if not left_skipped
    then here_left
    else if right_ref
    then go_right
    else if right_skipped
    then failed
    else here_right

find_loop-lem :
    (skip fuel : ℕ) (s : Binmap) (ref : ℕ) (bin : Bin)
    → let c = s.cell ref in
      find_loop skip (suc fuel) s ref bin
      ≡ round c.is_left_ref
          (c.left == skip)
          c.is_right_ref
          (c.right == skip)
          (find_loop skip fuel s c.left (to_left bin))
          (some (to_left bin, c.left))
          (find_loop skip fuel s c.right (to_right bin))
          none
          (some (to_right bin, c.right))
unfolding find_loop
find_loop-lem skip fuel s ref bin = refl

to_left-node : (k n : ℕ) → InTree (suc k) n → to_left (node (suc k) n) ≡ node k (2 * n)
unfolding to_left left
to_left-node k n t = left-node k n t

to_right-node : (k n : ℕ) → InTree (suc k) n → to_right (node (suc k) n) ≡ node k (2 * n + 1)
unfolding to_right right
to_right-node k n t = right-node k n t

module _ (s : Binmap) (v : Bool) where
  abbrev skip : ℕ
  skip = fill (not v) 32

  abbrev loop : ℕ → ℕ → Bin → Option Bin
  loop fuel ref bin = bin_found (sought v) (find_loop skip fuel s ref bin)

  -- What is found at a half with the flag and the word.
  abbrev pub half_found : ℕ → Bool → ℕ → Bin → Option Bin
  half_found fuel flag word bin =
      if flag then loop fuel word bin else bitmap_bin_in bin (sought v word)

  bin_found-some :
      (bin : Bin) (b : ℕ) → bin_found (sought v) (some (bin, b)) ≡ bitmap_bin_in bin (sought v b)
  unfolding bin_found
  bin_found-some bin b = refl

  module _ (fuel ref : ℕ) (bin : Bin) where
    on_left :
        ((s.cell ref).is_left_ref ≡ false → (s.cell ref).left ≢ skip)
        → loop (suc fuel) ref bin
          ≡ half_found fuel (s.cell ref).is_left_ref (s.cell ref).left (to_left bin)
    on_left h =
        ap (bin_found (sought v)) (find_loop-lem skip fuel s ref bin)
        ∙ elim (Bool-cases (s.cell ref).is_left_ref) [
          | inl e ↦ rw e refl
          | inr e ↦ rw (e, ==-eq_false _ _ (h e)) (bin_found-some _ _)
        ]

    on_right :
        (s.cell ref).is_left_ref ≡ false
        → (s.cell ref).left ≡ skip
        → ((s.cell ref).is_right_ref ≡ false → (s.cell ref).right ≢ skip)
        → loop (suc fuel) ref bin
          ≡ half_found fuel (s.cell ref).is_right_ref (s.cell ref).right (to_right bin)
    on_right e f h =
        ap (bin_found (sought v)) (find_loop-lem skip fuel s ref bin)
        ∙ elim (Bool-cases (s.cell ref).is_right_ref) [
          | inl g ↦ rw (e, (==_iff _ _).1 f, g) refl
          | inr g ↦ rw (e, (==_iff _ _).1 f, g, ==-eq_false _ _ (h g)) (bin_found-some _ _)
        ]

  -- Not the bitmap that is passed over.
  abbrev pub HasSome : Half → Type 0
  HasSome (bits b) = b ≢ skip
  HasSome (sub ref a c) = Unit

  abbrev IsRightFrom : ℕ → Type 0
  IsRightFrom fuel =
      (k n ref : ℕ) (a c : Half)
      → k < fuel
      → InTree (suc k) n
      → Stores s.cell (s.cell ref).is_left_ref (s.cell ref).left a
      → Stores s.cell (s.cell ref).is_right_ref (s.cell ref).right c
      → IsDeep k a
      → IsDeep k c
      → IsPacked a
      → IsPacked c
      → AreMixed a c
      → Leads v (suc k) n (holds (suc k) (sub ref a c)) (loop fuel ref (node (suc k) n))

  abbrev IsRightAt : ℕ → Type 0
  IsRightAt fuel =
      (k n : ℕ) (flag : Bool) (word : ℕ) (h : Half)
      → k ≤ fuel
      → InTree k n
      → Stores s.cell flag word h
      → IsDeep k h
      → IsPacked h
      → HasSome h
      → Leads v k n (holds k h) (half_found fuel flag word (node k n))

  half-Leads : (fuel : ℕ) → IsRightFrom fuel → IsRightAt fuel
  half-Leads fuel ih k n flag word (bits b) le t st dp pk some_left =
      rw (st.0, st.1) (bits-Leads v k n b dp t st.2 some_left)
  half-Leads fuel ih zero n flag word (sub r a c) le t st dp pk some_left = absurd dp
  half-Leads fuel ih (suc k) n flag word (sub r a c) le t st dp pk some_left =
      rw (st.0, st.1) (ih k n r a c (omega arith) t st.2 st.3 dp.0 dp.1 pk.0 pk.1 pk.2)

  some-word :
      (flag : Bool) (word : ℕ) (h : Half)
      → Stores s.cell flag word h
      → HasSome h
      → flag ≡ false
      → word ≢ skip
  some-word flag word (bits b) st some_left e q = some_left (sym st.1 ∙ q)
  some-word flag word (sub r a c) st some_left e q = absurd (ground (arith, e, st.0))

  -- The two halves of a cell, the left one first.
  module _ (fuel : ℕ) (ih : IsRightFrom fuel) (k n ref : ℕ) (lt : k ≤ fuel)
      (t : InTree (suc k) n) where
    left-Leads :
        (a c : Half)
        → Stores s.cell (s.cell ref).is_left_ref (s.cell ref).left a
        → IsDeep k a
        → IsPacked a
        → HasSome a
        → Leads v (suc k) n (holds (suc k) (sub ref a c)) (loop (suc fuel) ref (node (suc k) n))
    left-Leads a c sa da pa some_left =
        subst (Leads v (suc k) n (holds (suc k) (sub ref a c)))
          (sym (
            on_left fuel ref (node (suc k) n) (some-word _ _ a sa some_left)
            ∙ ap (half_found fuel (s.cell ref).is_left_ref (s.cell ref).left) (to_left-node k n t)))
          (lift_left v k n ref a c _
            (half-Leads fuel ih k (2 * n) _ _ a lt (children-InTree k n t).0 sa da pa some_left))

    right-Leads :
        (b : ℕ) (c : Half)
        → Stores s.cell (s.cell ref).is_left_ref (s.cell ref).left (bits b)
        → 5 ≤ k
        → b ≡ skip
        → Stores s.cell (s.cell ref).is_right_ref (s.cell ref).right c
        → IsDeep k c
        → IsPacked c
        → HasSome c
        → Leads v
            (suc k)
            n
            (holds (suc k) (sub ref (bits b) c))
            (loop (suc fuel) ref (node (suc k) n))
    right-Leads b c sa da e sc dc pc some_left =
        subst (Leads v (suc k) n (holds (suc k) (sub ref (bits b) c)))
          (sym (
            on_right fuel ref (node (suc k) n) sa.0 (sa.1 ∙ e) (some-word _ _ c sc some_left)
            ∙ ap (half_found fuel (s.cell ref).is_right_ref (s.cell ref).right)
                (to_right-node k n t)))
          (lift_right v k n ref (bits b) c _ ((bits-IsUniform (not v) k (2 * n) b da sa.2).1 e) (
            half-Leads fuel ih k (2 * n + 1) _ _ c lt (children-InTree k n t).1 sc dc pc some_left))

  -- Down from a cell whose halves are not one and the same bitmap.
  cell-Leads : (fuel : ℕ) → IsRightFrom fuel
  cell-Leads zero k n ref a c lt t sa sc da dc pa pc mix = absurd (omega arith)
  cell-Leads (suc fuel) k n ref (sub r x y) c lt t sa sc da dc pa pc mix =
      left-Leads fuel (cell-Leads fuel) k n ref (omega arith) t (sub r x y) c sa da pa tt
  cell-Leads (suc fuel) k n ref (bits b) (sub r x y) lt t sa sc da dc pa pc mix =
      elim (ℕ_discrete b skip) [
        | yes e ↦
            right-Leads fuel (cell-Leads fuel) k n ref (omega arith) t b (sub r x y) sa da e sc dc
              pc tt
        | no e ↦
            left-Leads fuel (cell-Leads fuel) k n ref (omega arith) t (bits b) (sub r x y) sa da pa
              e
      ]
  cell-Leads (suc fuel) k n ref (bits b) (bits x) lt t sa sc da dc pa pc mix =
      elim (ℕ_discrete b skip) [
        | yes e ↦
            right-Leads fuel (cell-Leads fuel) k n ref (omega arith) t b (bits x) sa da e sc dc pc
              (λ q. mix (e ∙ sym q))
        | no e ↦
            left-Leads fuel (cell-Leads fuel) k n ref (omega arith) t (bits b) (bits x) sa da pa e
      ]

  -- What is found below a half of the root.
  pub root-Leads : (fuel : ℕ) → IsRightAt fuel
  root-Leads fuel = half-Leads fuel (cell-Leads fuel)
