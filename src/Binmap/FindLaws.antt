-- ===== src/Binmap/FindLaws.antt =====
-- binmap.cpp: what `find_filled()` and `find_empty()` find.
use mathlib.Core.Path.{subst}
use native.Mathlib.Decide.{ℕ_discrete}
use libswift.Base.{ℕ, ◌≤◌, ◌≡◌, ap, sym, ◌∙◌, arith, Bool, true, false, not, ==_iff, ==-eq_false}
use libswift.Bin.Laws.{children-InTree}
use libswift.Binmap.Heap.{Binmap}
use libswift.Binmap.Query.{find_empty, find_filled}
use libswift.Binmap.Digits.{fill}
use libswift.Binmap.Shape.{Half, bits, sub, IsTree, member}
use libswift.Binmap.Uniform.{bits-IsUniform}
use libswift.Binmap.Find.{half_found, HasSome, root-Leads}
use libswift.Binmap.Choice.{
  found, flag_of, word_of, Stores-of, AreFull, chosen_at, chosen_left, chosen_right, chosen_by,
}
use libswift.Binmap.RootFound.{
  Found, top-InTree, left_is, right_is, left-Found, right-Found, full-Found, rest-Found,
}

module _ (fuel : ℕ) (v : Bool) (s : Binmap) (k : ℕ) (h : k ≤ fuel) where
  left_goes :
      (a c : Half)
      → IsTree s k a c
      → HasSome s v a
      → ¬ AreFull v a c
      → Found v (member k a c) (chosen_at fuel s v a c)
  left_goes a c tree has other =
      subst (Found v (member k a c))
        (sym (
          chosen_left fuel s v a c has other
          ∙ ap (half_found s v fuel (flag_of a) (word_of a)) (left_is s k a c tree)))
        (left-Found s k a c tree v _ (
          root-Leads s v fuel k 0 _ _ a h (children-InTree k 0 (top-InTree s k a c tree)).0
            (Stores-of s.cell _ _ a tree.left).2 tree.left_deep tree.left_packed has))

  right_goes :
      (b : ℕ) (c : Half)
      → IsTree s k (bits b) c
      → b ≡ fill (not v) 32
      → HasSome s v c
      → Found v (member k (bits b) c) (chosen_at fuel s v (bits b) c)
  right_goes b c tree e has =
      subst (Found v (member k (bits b) c))
        (sym (
          ap (λ (x : ℕ). chosen_at fuel s v (bits x) c) e
          ∙ chosen_right fuel s v c has
          ∙ ap (half_found s v fuel (flag_of c) (word_of c)) (right_is s k (bits b) c tree)))
        (right-Found s k (bits b) c tree v _
          ((bits-IsUniform (not v) k 0 b tree.low tree.left.2).1 e)
          (root-Leads s v fuel k 1 _ _ c h (children-InTree k 0 (top-InTree s k (bits b) c tree)).1
            (Stores-of s.cell _ _ c tree.right).2 tree.right_deep tree.right_packed has))

  two_bitmaps :
      (b x : ℕ)
      → IsTree s k (bits b) (bits x)
      → Found v (member k (bits b) (bits x)) (chosen_at fuel s v (bits b) (bits x))
  two_bitmaps b x tree = elim (ℕ_discrete b (fill (not v) 32)) [
    | yes e ↦ elim (ℕ_discrete x (fill (not v) 32)) [
      | yes g ↦
          rw ((==_iff b (fill (not v) 32)).1 e, (==_iff x (fill (not v) 32)).1 g)
            (rest-Found v s k (bits b) (bits x) tree
              ((bits-IsUniform (not v) k 0 b tree.low tree.left.2).1 e)
              ((bits-IsUniform (not v) k 1 x tree.low tree.right.2).1 g))
      | no g ↦ right_goes b (bits x) tree e g
    ]
    | no e ↦ elim (ℕ_discrete b (fill v 32)) [
      | yes f ↦ elim (ℕ_discrete x (fill v 32)) [
        | yes g ↦
            rw (==-eq_false _ _ e, (==_iff b (fill v 32)).1 f, (==_iff x (fill v 32)).1 g)
              (full-Found v s k (bits b) (bits x) tree
                ((bits-IsUniform v k 0 b tree.low tree.left.2).1 f)
                ((bits-IsUniform v k 1 x tree.low tree.right.2).1 g))
        | no g ↦ left_goes (bits b) (bits x) tree e (λ q. g q.1)
      ]
      | no f ↦ left_goes (bits b) (bits x) tree e (λ q. f q.0)
    ]
  ]

  chosen-Found : (a c : Half) → IsTree s k a c → Found v (member k a c) (chosen_at fuel s v a c)
  chosen-Found (sub r x y) c tree = left_goes (sub r x y) c tree tt (λ q. q)
  chosen-Found (bits b) (bits x) tree = two_bitmaps b x tree
  chosen-Found (bits b) (sub r x y) tree = elim (ℕ_discrete b (fill (not v) 32)) [
    | yes e ↦ right_goes b (sub r x y) tree e tt
    | no e ↦ left_goes (bits b) (sub r x y) tree e (λ q. q)
  ]

  find-Found : (a c : Half) → IsTree s k a c → Found v (member k a c) (found v fuel s)
  find-Found a c tree =
      subst (Found v (member k a c)) (sym (chosen_by fuel s v k a c tree)) (chosen-Found a c tree)

-- For a packed tree of cells, `find_filled()` gives a bin all of whose base bins are in the set, and
-- before which no base bin is, or else NONE, and the set is empty. It meets no failed assertion.
pub find_filled-Found :
    (s : Binmap) (k : ℕ) (a c : Half) → IsTree s k a c → Found true (member k a c) (find_filled s)
unfolding find_filled
find_filled-Found s k a c tree = find-Found 64 true s k (omega (arith, tree.high)) a c tree

-- For a packed tree of cells, `find_empty()` gives a bin none of whose base bins is in the set, and
-- before which all base bins are, or else NONE, and all 2 ^ 63 base bins are in the set.
pub find_empty-Found :
    (s : Binmap) (k : ℕ) (a c : Half) → IsTree s k a c → Found false (member k a c) (find_empty s)
unfolding find_empty
find_empty-Found s k a c tree = find-Found 64 false s k (omega (arith, tree.high)) a c tree
