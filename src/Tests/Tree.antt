-- ===== src/Tests/Tree.antt =====
-- The theorems about the hash tree, applied to a content of four chunks under one peak, of which
-- no chunk has arrived yet.
use libswift.Base.{
  ℕ, zero, suc, not, ◌*◌, ◌^◌, ◌<◌, ◌/◌, ◌≡◌, ◌≢◌, inl, inr, refl, ap, sym, ◌∙◌, arith, true, false,
  [], ◌∷◌, some, ◌==◌, if◌then◌else◌,
}
use libswift.Bits.Fields.{pow_double, pow_pos}
use libswift.Bin.{Bin, of_layer, parent, left, right, contains, is_none, is_base, layer_bits}
use libswift.Bin.Layout.{node, InTree, of_layer-node}
use libswift.BinSet.{BinSet}
use libswift.Binmap.AsSet.{IsWhole, binmaps}
use libswift.Binmap.Heap.{is_high, Binmap, new_binmap}
use libswift.Binmap.Query.{is_empty}
use libswift.Binmap.Shape.{bits}
use libswift.Binmap.Answers.{is_empty_iff}
use libswift.Binmap.Start.{new_binmap-IsTree}
use libswift.HashTree.State.{Tree, Disk, peak_for}
use libswift.HashTree.Walk.{walk}
use libswift.HashTree.Offer.{check_hash, check_base, offer_hash, offer_data}
use mathlib.Core.Path.{subst}
use libswift.HashTree.Spec.{merkle, Under, HasPeak, ArePeaks, Genuine}
use libswift.HashTree.Kin.{Under-layer}
use libswift.HashTree.Accept.{walk_for, offer_hash-Genuine}
use libswift.HashTree.Forgery.{Exposed, forged_chunk-accepted}
use libswift.Tests.Model.{Digest, nil, leaf, digests, digests-IsCollisionFree}

abbrev chunk_leaf : ℕ → Digest
chunk_leaf i = leaf (suc i)

-- The peak's hash, the hashes of the two uncles, and one that a sibling has or has not sent.
abbrev stored : Digest → Bin → Digest
stored sibling v =
    if v == 3
    then merkle digests chunk_leaf 2 0
    else if v == 5
    then merkle digests chunk_leaf 1 1
    else if v == 2
    then sibling
    else nil

abbrev four_in : (b : BinSet) → b.Set → Digest → Tree digests b
four_in b none_yet sibling = record {
  root_hash = merkle digests chunk_leaf 2 0;
  hashes = some (stored sibling);
  peaks = (3, merkle digests chunk_leaf 2 0) ∷ [];
  hash_file_open = true;
  size = 4096;
  sizec = 4;
  complete = 0;
  completec = 0;
  ack_out = none_yet;
  verified = none_yet;
  chunk_size = 1;
  working = true;
}

-- The sets are the program's own binmaps.
abbrev cells : BinSet
cells = binmaps (λ n. true)

abbrev fresh : Binmap
fresh = new_binmap (λ n. true)

abbrev four : Digest → Tree digests cells
four sibling = four_in cells fresh sibling

fresh-IsWhole : IsWhole fresh
fresh-IsWhole = (5, bits 0, bits 0, (new_binmap-IsTree (λ n. true) refl).0)

fresh_empty : (l o : ℕ) → InTree l o → is_empty fresh (of_layer l o) ≡ true
fresh_empty l o t =
    let (tree, nothing, pool) = new_binmap-IsTree (λ n. true) refl in
    (is_empty_iff fresh 5 (bits 0) (bits 0) tree l o t).1 (λ i p q. nothing i)

abbrev disk : Disk digests
disk = record {
  reserved = 4096;
  resize_fails = λ n. false;
  opens = true;
  maps = true;
  hash_file = λ v. nil;
}

-- The one peak is the bin at layer 2 and offset 0.
one_peak : (m n : ℕ) → 3 ≡ node m n → (m ≡ 2) × (n ≡ 0)
one_peak zero n e = absurd (omega arith)
one_peak (suc zero) n e = absurd (omega arith)
one_peak (suc (suc zero)) n e = omega arith
one_peak (suc (suc (suc m))) n e =
    absurd (omega (arith, pow_pos m, pow_double m, pow_double (suc m), pow_double (suc (suc m))))

four-ArePeaks : (sibling : Digest) → ArePeaks (four sibling).peaks
four-ArePeaks sibling = ((2, 0, refl, (omega arith, omega arith), omega arith), tt)

unproven_false : (i : ℕ) → i < 2 ^ 63 → cells.mem fresh i ≢ true
unproven_false i h e =
    let same : of_layer 0 i ≡ node 0 i = of_layer-node 0 i (omega arith, omega arith) in
    let none_yet = ap (is_empty fresh) (sym same) ∙ fresh_empty 0 i (omega arith, omega arith) in
    absurd (ground (arith, sym e ∙ ap not none_yet))

-- A bin under the one peak is small.
Under-small : (d l o : ℕ) → Under d 2 0 l o → node l o < 2 ^ 63
Under-small zero l o u =
    subst (λ (x : ℕ). node x o < 2 ^ 63) (sym u.0)
      (subst (λ (x : ℕ). node 2 x < 2 ^ 63) (sym u.1) (omega arith))
Under-small (suc zero) l o u =
    let one : 1 ≡ l = omega (arith, u.0) in
    subst (λ (x : ℕ). node x o < 2 ^ 63) one (omega (arith, u.1))
Under-small (suc (suc zero)) l o u =
    let none_below : 0 ≡ l = omega (arith, u.0) in
    subst (λ (x : ℕ). node x o < 2 ^ 63) none_below (omega (arith, u.1))
Under-small (suc (suc (suc d))) l o u =
    absurd (omega (arith, Under-layer (suc (suc (suc d))) 2 0 l o u))

unproven-Under :
    (sibling : Digest) (d m n l o : ℕ)
    → HasPeak (four sibling).peaks m n
    → Under d m n l o
    → cells.mem fresh (node l o) ≢ true
unproven-Under sibling d m n l o (inr e) u = absurd e
unproven-Under sibling d m n l o (inl e) u =
    let (two, first) = one_peak m n e in
    unproven_false (node l o) (
      Under-small d l o
        (subst (λ (x : ℕ). Under d 2 x l o) first (subst (λ (x : ℕ). Under d x n l o) two u)))

unproven_chunk :
    (sibling : Digest) (d m n i : ℕ)
    → HasPeak (four sibling).peaks m n
    → Under (suc d) m n 0 i
    → cells.mem fresh i ≢ true
unproven_chunk sibling d m n i (inr e) u p = absurd e
unproven_chunk sibling d m n i (inl e) u p =
    let (two, first) = one_peak m n e in
    let same : node 0 i ≡ i * 2 = omega arith in
    let small = Under-small (suc d) 0 i (
      subst (λ (x : ℕ). Under (suc d) 2 x 0 i) first
        (subst (λ (x : ℕ). Under (suc d) x n 0 i) two u)) in
    unproven_false i (omega (arith, small, same)) p

four-Genuine :
    (sibling : Digest)
    → Genuine digests cells chunk_leaf (stored sibling) (four sibling).peaks fresh fresh
four-Genuine sibling = record {
  ack_sound = fresh-IsWhole;
  verified_sound = fresh-IsWhole;
  peak_hash = λ m n has. elim has [
    | inl e ↦
        let (two, first) = one_peak m n e in
        ap (stored sibling) (sym e)
        ∙ ap (λ (k : ℕ). merkle digests chunk_leaf k 0) (sym two)
        ∙ ap (merkle digests chunk_leaf m) (sym first)
    | inr e ↦ absurd e
  ];
  proven_hash = λ d m n l o has u p. absurd (unproven-Under sibling d m n l o has u p);
  proven_parent = λ d m n l o has u p. absurd (unproven-Under sibling (suc d) m n l o has u p);
  proven_sibling =
      λ d m n l o has u p. absurd (unproven-Under sibling (suc d) m n (suc l) o has u p);
  acked_parent = λ d m n i has u p. absurd (unproven_chunk sibling d m n i has u p);
}

nothing_acked : (s : Digest) → cells.is_empty (four s).ack_out (parent (of_layer 0 0)) ≡ true
unfolding parent of_layer layer_bits
nothing_acked s = fresh_empty 1 0 (omega arith, omega arith)

not_broken :
    (walk_for digests cells (four (chunk_leaf 1)) (stored (chunk_leaf 1)) 0 (chunk_leaf 0)).broke
    ≡ false
unfolding walk peak_for contains is_none of_layer parent left right layer_bits new_binmap is_empty
    is_high
not_broken = refl

accepted :
    (offer_hash digests cells disk (four (chunk_leaf 1)) (of_layer 0 0) (chunk_leaf 0)).0 ≡ true
unfolding offer_hash check_hash check_base walk peak_for contains is_none is_base of_layer parent
    left right layer_bits new_binmap is_empty is_high
accepted = refl

some_size : (four nil).size ≢ 0
some_size e = absurd (omega arith)

offer_hash-Genuine_example : digests.of_data (0 ∷ []) ≡ chunk_leaf 0
offer_hash-Genuine_example =
    offer_hash-Genuine digests cells digests-IsCollisionFree chunk_leaf disk (four (chunk_leaf 1))
      (stored (chunk_leaf 1)) 0 (chunk_leaf 0) refl some_size (omega arith)
      (four-ArePeaks (chunk_leaf 1)) (four-Genuine (chunk_leaf 1)) (nothing_acked (chunk_leaf 1))
      not_broken accepted

-- Before the sibling's hash arrives, chunk 0 is exposed to the bytes `9`.
exposed : Exposed digests cells disk (four nil) (stored nil) 0 2 0 0 (9 ∷ [])
unfolding peak_for contains is_none of_layer
exposed = record {
  room = omega arith;
  under = (refl, refl);
  chunk_peak = refl;
  parent_peak = refl;
  ack_sound = fresh-IsWhole;
  clear = fresh_empty 2 0 (omega arith, omega arith);
  chunk_unproven = fresh_empty 0 0 (omega arith, omega arith);
  parent_unproven = fresh_empty 0 1 (omega arith, omega arith);
  sibling_waits = refl;
}

forged_chunk-accepted_example :
    let first = offer_hash digests cells disk (four nil) (node 1 (0 / 2)) (leaf 10) in
    (first.0 ≡ false)
    × ((offer_data digests cells disk first.1 (node 0 0) (9 ∷ [])).accepted ≡ true)
forged_chunk-accepted_example =
    forged_chunk-accepted digests cells disk (four nil) (stored nil) 0 2 0 0 (9 ∷ []) exposed refl
      some_size (omega arith)
