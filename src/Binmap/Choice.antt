-- ===== src/Binmap/Choice.antt =====
-- binmap.cpp: the branches of `find_filled()` and `find_empty()` at the root.
use mathlib.Core.Path.{subst}
use native.Mathlib.Decide.{ℕ_discrete}
use libswift.Base.{
  ℕ, ◌-◌, ◌^◌, ◌≡◌, refl, ap, sym, ◌∙◌, arith, Bool, true, false, not, ◌&&◌, ◌==◌, ==_iff,
  ==-eq_false, if◌then◌else◌, Option, some,
}
use libswift.Bin.{Bin, left, right, sibling, is_all, none_bin, all_bin}
use libswift.Binmap.Bitmap.{bitmap_bin_in}
use libswift.Binmap.Heap.{Cell, Binmap, root_ref}
use libswift.Binmap.Query.{bin_found, find_empty_on, find_filled_on}
use libswift.Binmap.Digits.{fill}
use libswift.Binmap.Shape.{Half, bits, sub, Stores, IsTree}
use libswift.Binmap.Leads.{sought, bitmap_bin_in-filled}
use libswift.Binmap.Find.{half_found, HasSome}

-- The branches of the two functions at the root, whose halves have the flags `lr` and `rr` and the
-- words `lw` and `rw`.
abbrev choice :
    Bool
    → Bin
    → Bin
    → Bin
    → Bool
    → ℕ
    → Bool
    → ℕ
    → Option Bin
    → Option Bin
    → Option Bin
    → Option Bin
    → Option Bin
choice v whole last left_bin lr lw rr rw below_left in_left below_right in_right =
    if lr
    then below_left
    else if not (lw == fill (not v) 32)
    then (if lw == fill v 32
        then some (if not rr && rw == fill v 32 then whole else left_bin)
        else in_left)
    else if rr
    then below_right
    else if rw == fill (not v) 32
    then some last
    else in_right

abbrev pub found : Bool → ℕ → Binmap → Option Bin
found true = find_filled_on
found false = find_empty_on

abbrev pub whole_of : Bool → Bin → Bin
whole_of true root = root
whole_of false root = all_bin

abbrev pub last_of : Bool → Bin → Bin
last_of true root = none_bin
last_of false root = if is_all root then none_bin else sibling root

module _ (fuel : ℕ) (s : Binmap) (v : Bool) where
  abbrev chosen : Bool → ℕ → Bool → ℕ → Option Bin
  chosen lr lw rr rw =
      choice v (whole_of v s.root_bin) (last_of v s.root_bin) (left s.root_bin) lr lw rr rw
        (half_found s v fuel true lw (left s.root_bin))
        (bitmap_bin_in (left s.root_bin) (sought v lw))
        (half_found s v fuel true rw (right s.root_bin))
        (bitmap_bin_in (right s.root_bin) (sought v rw))

found-lem :
    (fuel : ℕ) (s : Binmap) (v : Bool)
    → let c = s.cell root_ref in
      found v fuel s ≡ chosen fuel s v c.is_left_ref c.left c.is_right_ref c.right
unfolding find_filled_on find_empty_on bin_found
found-lem fuel s true = refl
found-lem fuel s false = refl

-- The flag and the word of a half.
abbrev pub flag_of : Half → Bool
flag_of (bits b) = false
flag_of (sub r a c) = true

abbrev pub word_of : Half → ℕ
word_of (bits b) = b
word_of (sub r a c) = r

pub Stores-of :
    (f : ℕ → Cell) (r : Bool) (w : ℕ) (h : Half)
    → Stores f r w h
    → (r ≡ flag_of h) × (w ≡ word_of h) × Stores f (flag_of h) (word_of h) h
Stores-of f r w (bits b) st = (st.0, st.1, (refl, refl, st.2))
Stores-of f r w (sub x a c) st = (st.0, st.1, (refl, refl, st.2, st.3))

sought-fill : (v : Bool) → sought v (fill v 32) ≡ 2 ^ 32 - 1
sought-fill true = refl
sought-fill false = refl

-- Both halves are all of the kind sought.
abbrev pub AreFull : Bool → Half → Half → Type 0
AreFull v (bits b) (bits x) = (b ≡ fill v 32) × (x ≡ fill v 32)
AreFull v _ _ = ⊥

module _ (fuel : ℕ) (s : Binmap) (v : Bool) where
  abbrev pub chosen_at : Half → Half → Option Bin
  chosen_at a c = chosen fuel s v (flag_of a) (word_of a) (flag_of c) (word_of c)

  pub chosen_left :
      (a c : Half)
      → HasSome s v a
      → ¬ AreFull v a c
      → chosen_at a c ≡ half_found s v fuel (flag_of a) (word_of a) (left s.root_bin)
  chosen_left (sub r x y) c n m = refl
  chosen_left (bits b) c n m = elim (ℕ_discrete b (fill v 32)) [
    | yes e ↦
        rw
          (
            ==-eq_false _ _ n,
            (==_iff _ _).1 e,
            not_both c (λ f. m (subst (λ (x : ℕ). AreFull v (bits x) c) (sym e) f)),
          )
          (sym (
            ap (λ (x : ℕ). bitmap_bin_in (left s.root_bin) (sought v x)) e
            ∙ ap (bitmap_bin_in (left s.root_bin)) (sought-fill v)
            ∙ bitmap_bin_in-filled (left s.root_bin)))
    | no e ↦ ground (arith, ==-eq_false _ _ n, ==-eq_false _ _ e)
  ]
    where
      not_both :
          (c : Half)
          → ¬ AreFull v (bits (fill v 32)) c
          → (not (flag_of c) && word_of c == fill v 32) ≡ false
      not_both (sub r x y) m = refl
      not_both (bits b) m = ground (arith, ==-eq_false b (fill v 32) (λ e. m (refl, e)))

  pub chosen_right :
      (c : Half)
      → HasSome s v c
      → chosen_at (bits (fill (not v) 32)) c
        ≡ half_found s v fuel (flag_of c) (word_of c) (right s.root_bin)
  chosen_right (sub r x y) n = rw ((==_iff (fill (not v) 32) (fill (not v) 32)).1 refl) refl
  chosen_right (bits b) n = ground (arith, ==-eq_false _ _ n)

  pub chosen_by : (k : ℕ) (a c : Half) → IsTree s k a c → found v fuel s ≡ chosen_at a c
  chosen_by k a c tree =
      let (p, q, st) = Stores-of s.cell _ _ a tree.left in
      let (p', q', st') = Stores-of s.cell _ _ c tree.right in
      found-lem fuel s v
      ∙ ap
          (λ (x : Bool). chosen fuel s v x (s.cell 0).left (s.cell 0).is_right_ref (s.cell 0).right)
          p
      ∙ ap (λ (x : ℕ). chosen fuel s v (flag_of a) x (s.cell 0).is_right_ref (s.cell 0).right) q
      ∙ ap (λ (x : Bool). chosen fuel s v (flag_of a) (word_of a) x (s.cell 0).right) p'
      ∙ ap (λ (x : ℕ). chosen fuel s v (flag_of a) (word_of a) (flag_of c) x) q'
