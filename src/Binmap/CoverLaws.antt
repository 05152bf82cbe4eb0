-- ===== src/Binmap/CoverLaws.antt =====
-- binmap.cpp: `cover(bin)` for a bin outside the root.
use libswift.Base.{
  ℕ, suc, refl, ◌*◌, ◌^◌, ◌≤◌, ◌<◌, ◌≡◌, ap, sym, ◌∙◌, arith, true, false, not, Bool-cases, inl,
  inr, some, if◌then◌else◌,
}
use libswift.Bits.Fields.{pow_double, pow_pos, mul_pow_double}
use libswift.Bits.Tail.{exponent-le}
use libswift.Bin.{Bin, contains, of_layer, sibling, all_bin, none_bin}
use libswift.Bin.Layout.{node, InTree, of_layer-node, node_fits, second-InTree}
use libswift.Bin.Family.{sibling-node}
use libswift.Bin.Laws.{contains_iff}
use libswift.Binmap.Heap.{Binmap}
use libswift.Binmap.Query.{is_empty_all, cover, cover_within}
use libswift.Binmap.Shape.{Half, IsTree}
use libswift.Binmap.Answers.{top-InTree, root_contains, covers_root}

cover-lem :
    (s : Binmap) (x : Bin)
    → cover s x ≡ (
        if not (contains s.root_bin x)
        then some (
            if not (contains x s.root_bin)
            then sibling s.root_bin
            else if is_empty_all s
            then all_bin
            else none_bin)
        else cover_within s x)
unfolding cover
cover-lem s x = refl

-- For a bin that lies beyond the root and the root's sibling, `cover(bin)` gives the root's sibling,
-- which does not cover the bin.
pub cover_beyond :
    (s : Binmap) (k : ℕ) (a c : Half)
    → IsTree s k a c
    → (l o : ℕ) → InTree l o
    → 2 ^ suc (suc k) ≤ o * 2 ^ l
    → (cover s (of_layer l o) ≡ some (of_layer (suc k) 1))
      × (contains (of_layer (suc k) 1) (of_layer l o) ≡ false)
cover_beyond s k a c tree l o t far = (
  ap (cover s) (of_layer-node l o t)
      ∙ cover-lem s (node l o)
      ∙ rw (apart, apart')
          (ap some (
            ap sibling tree.root
            ∙ sibling-node (suc k) 0 top low
            ∙ sym (of_layer-node (suc k) 1 beside))),
  elim (Bool-cases (contains (of_layer (suc k) 1) (of_layer l o))) [
    | inl e ↦
        absurd
          (omega (arith, (contains_iff (suc k) 1 l o beside t).0 e, pow_double (suc k), pow_pos l))
    | inr e ↦ e
  ],
)
  where
    top : InTree (suc k) 0
    top = top-InTree s k a c tree

    low : suc k < 63
    low = omega (
      arith,
      exponent-le (suc (suc k)) 63
          (omega (arith, far, node_fits l o t, mul_pow_double o l, pow_double l)),
    )

    beside : InTree (suc k) 1
    beside = second-InTree (suc k) low

    apart : contains s.root_bin (node l o) ≡ false
    apart = elim (Bool-cases (contains s.root_bin (node l o))) [
      | inl e ↦ absurd (
          omega (
            arith,
            (root_contains s k a c tree true l o t).0 e,
            pow_double (suc k),
            pow_pos (suc k),
            pow_pos l,
          ))
      | inr e ↦ e
    ]

    apart' : contains (node l o) s.root_bin ≡ false
    apart' = elim (Bool-cases (contains (node l o) s.root_bin)) [
      | inl e ↦ absurd (
          omega
            (arith, (covers_root s k a c tree true l o t).0 e, pow_double (suc k), pow_pos (suc k)))
      | inr e ↦ e
    ]
