-- ===== src/Binmap/AsSet.antt =====
-- The binmap as the set of base bins that the hash tree and the channels ask.
use libswift.Base.{
  via, ℕ, ◌+◌, ◌*◌, ◌^◌, ◌≤◌, ◌<◌, ◌≡◌, ◌↔◌, ap, sym, ◌∙◌, arith, Bool, true, false, not,
}
use libswift.Bin.Layout.{node, InTree, of_layer-node, node_fits}
use libswift.Bits.Fields.{pow_double, mul_pow_double}
use libswift.BinSet.{BinSet, covers}
use libswift.Binmap.Heap.{Binmap, new_binmap}
use libswift.Binmap.Query.{is_empty, is_filled}
use libswift.Binmap.Update.{set}
use libswift.Binmap.Shape.{Half, IsTree, member}
use libswift.Binmap.Uniform.{IsUniform}
use libswift.Binmap.Answers.{is_empty_iff}

-- A base bin is in the set if it is not empty.
abbrev pub has : Binmap → ℕ → Bool
has s i = not (is_empty s (node 0 i))

-- The cells are a packed tree.
abbrev pub IsWhole : Binmap → Type 0
IsWhole s = (k : ℕ) × (a : Half) × (c : Half) × IsTree s k a c

module _ (s : Binmap) (k : ℕ) (a c : Half) (tree : IsTree s k a c) where
  node_iff :
      (l o : ℕ) → InTree l o → (is_empty s (node l o) ≡ true) ↔ IsUniform false l o (member k a c)
  node_iff l o t =
      via (ap (is_empty s) (sym (of_layer-node l o t))) (is_empty_iff s k a c tree l o t)

  has_iff : (i : ℕ) → i < 2 ^ 63 → (has s i ≡ false) ↔ (member k a c i ≡ false)
  has_iff i h =
      let (f, g) = node_iff 0 i (omega arith, omega arith) in
      (
        λ e. f (ground (arith, e)) i (omega arith) (omega arith),
        λ e. ap not (g λ j p q. (let same : j ≡ i = omega arith in ap (member k a c) same ∙ e)),
      )

pub has_none_iff :
    (s : Binmap)
    → IsWhole s
    → (l o : ℕ) → InTree l o
    → (is_empty s (node l o) ≡ true) ↔ ((i : ℕ) → covers l o i ≡ true → has s i ≡ false)
has_none_iff s (k, a, c, tree) l o t =
    let (f, g) = node_iff s k a c tree l o t in
    let ends : o * 2 ^ l + 2 ^ l ≤ 2 ^ 63 =
      omega (arith, node_fits l o t, pow_double l, mul_pow_double o l) in
    (
      λ e i under.
          (has_iff s k a c tree i (ground (arith, under, ends))).1
            (f e i (ground (arith, under)) (ground (arith, under))),
      λ none_there. g λ i p q.
          (has_iff s k a c tree i (omega (arith, q, ends))).0 (none_there i (ground (arith, p, q))),
    )

-- `room` is whether there is memory for so many cells.
abbrev pub binmaps : (ℕ → Bool) → BinSet
binmaps room = record {
  Set = Binmap;
  empty = new_binmap room;
  set = λ s bin. set room bin s;
  is_empty = is_empty;
  is_filled = is_filled;
  mem = has;
  IsSound = IsWhole;
  is_empty_iff = has_none_iff;
}
