-- ===== src/HashTree/Accept.antt =====
-- What `OfferHash` accepts for a chunk, in a tree that has learned its peaks.
use mathlib.Core.Path.{subst}
use libswift.Base.{
  ℕ, zero, suc, ◌/◌, ◌^◌, ◌<◌, ◌≡◌, ◌≢◌, inl, inr, Bool, true, false, ap, sym, ◌∙◌, arith,
  Bool-cases, ◌==◌, ==_iff, ==-eq_false, some,
}
use libswift.Bin.{Bin, of_layer, none_bin, parent, is_base}
use libswift.Bin.Layout.{node, of_layer-node, is_none-node}
use libswift.Bin.Family.{and-one, parent-node}
use libswift.BinSet.{BinSet}
use libswift.Hashing.{Hashing, IsCollisionFree}
use libswift.HashTree.State.{Tree, Disk, peak_for}
use libswift.HashTree.Walk.{Walked, write, unproven, walk}
use libswift.HashTree.Offer.{check_base, check_hash, offer_hash}
use libswift.HashTree.Spec.{merkle, Under, HasRoom, HasPeak, ArePeaks, Genuine}
use libswift.HashTree.Kin.{peak_for-Under, Under-layer, Under-HasRoom, HasRoom-InTree}
use libswift.HashTree.Branches.{
  offer_hash-check, branch_none, branch_peak, branch_proven, branch_walk,
}
use libswift.HashTree.Climb.{goes}
use libswift.HashTree.Sound.{StopTrue-write, walk_sound}
use libswift.HashTree.Proven.{unproven_iff, StopTrue-genuine, below_peak}

pub is_base-node : (i : ℕ) → is_base (node 0 i) ≡ true
unfolding is_base
is_base-node i = rw (and-one (node 0 i)) (ground arith)

module _ (h : Hashing) (b : BinSet) where
  open h use {Hash, eq, eq_iff}

  -- The walk that `OfferHash` makes for chunk `i` with the offered hash `a`.
  abbrev pub walk_for : Tree h b → (Bin → Hash) → ℕ → Hash → Walked h b
  walk_for t hs i a =
      let pos = of_layer 0 i in
      walk h b 64 (write h b hs pos a) t.ack_out t.verified (peak_for t.peaks pos) pos a

  module _ (free : IsCollisionFree h) (leaf : ℕ → Hash) (t : Tree h b) (hs : Bin → Hash)
      (ok : ArePeaks t.peaks) (g : Genuine h b leaf hs t.peaks t.ack_out t.verified) (i : ℕ)
      (a : Hash) where
    -- The case of a chunk under the peak at `m`, `n`, below the peak itself.
    walk_case :
        (m n d : ℕ) (room : HasRoom m n)
        → HasPeak t.peaks m n
        → Under (suc d) m n 0 i
        → b.is_empty t.ack_out (node 0 i) ≡ true
        → unproven h b t.verified (node 0 i) ≡ true
        → let w =
            walk h b 64 (write h b hs (node 0 i) a) t.ack_out t.verified (node m n) (node 0 i) a in
          w.broke ≡ false → w.uphash ≡ w.hashes w.stop → a ≡ leaf i
    walk_case m n d room has u clear unseen nb agree =
        let t0 = HasRoom-InTree 0 i (Under-HasRoom (suc d) m n 0 i u room) in
        let apart =
          below_peak h b leaf hs t.peaks t.ack_out t.verified g m n room has (suc d) 0 i
            (omega arith) u in
        let moving : goes h b t.ack_out t.verified m n room 0 i ≡ true =
          rw (==-eq_false (node 0 i) (node m n) apart, clear, unseen) in
        let above =
          StopTrue-genuine h b leaf hs t.peaks t.ack_out t.verified g m n room has d 0 (i / 2) u in
        (walk_sound h b leaf t.ack_out t.verified m n room free 64 (suc d) 0 i
          (write h b hs (node 0 i) a) a
          (omega (arith, Under-layer (suc d) m n 0 i u, HasRoom-InTree m n room)) u
          (
            λ e. absurd (clash (sym moving ∙ e)),
            StopTrue-write h b leaf t.ack_out t.verified m n room 0 i a t0 d hs 1 (i / 2) u
                (omega arith) above,
          )
          nb agree).0
      where
        clash : true ≡ false → ⊥
        clash e = cc

    -- Where no neighbour is acknowledged, the chunk itself is not.
    clear_chunk :
        i < 2 ^ 63
        → b.is_empty t.ack_out (node 1 (i / 2)) ≡ true
        → b.is_empty t.ack_out (node 0 i) ≡ true
    clear_chunk fits e = (b.is_empty_iff t.ack_out g.ack_sound 0 i (omega arith, fits)).1 λ x c.
        (b.is_empty_iff t.ack_out g.ack_sound 1 (i / 2) (omega arith, omega arith)).0 e x
          (ground arith)

    eq_sound : (x : Hash) → eq a x ≡ true → a ≡ x
    eq_sound x e = (eq_iff a x).0 e

    -- The result of `check_base` is the comparison at the bin where the walk stopped.
    agreed :
        (p : Bin)
        → (check_base h b t hs p (node 0 i) a).0 ≡ true
        → let w = walk h b 64 (write h b hs (node 0 i) a) t.ack_out t.verified p (node 0 i) a in
          w.uphash ≡ w.hashes w.stop
    unfolding check_base
    agreed p e = (eq_iff _ _).0 e

    Under-case :
        (m n d : ℕ) (room : HasRoom m n)
        → peak_for t.peaks (node 0 i) ≡ node m n
        → HasPeak t.peaks m n
        → Under (suc d) m n 0 i
        → b.is_empty t.ack_out (parent (node 0 i)) ≡ true
        → b.is_empty t.ack_out (node 0 i) ≡ true
        → (walk h b 64
            (write h b hs (node 0 i) a)
            t.ack_out
            t.verified
            (node m n)
            (node 0 i)
            a).broke
          ≡ false
        → (check_hash h b t hs (node 0 i) a).0 ≡ true
        → a ≡ leaf i
    Under-case m n d room e has u clear own nb good =
        let nn = is_none-node m n (HasRoom-InTree m n room) in
        let apart =
          below_peak h b leaf hs t.peaks t.ack_out t.verified g m n room has (suc d) 0 i
            (omega arith) u in
        let q : (node m n == node 0 i) ≡ false =
          ==-eq_false (node m n) (node 0 i) (λ x. apart (sym x)) in
        elim (Bool-cases (unproven h b t.verified (node 0 i))) [
          | inr v ↦
              eq_sound (hs (node 0 i))
                (sym (branch_proven h b t hs (node 0 i) (node m n) a e nn q clear v) ∙ good)
              ∙ g.proven_hash (suc d) m n 0 i has u (
                  unproven_iff h b leaf hs t.peaks t.ack_out t.verified g m n room has 0 i
                    (Under-HasRoom (suc d) m n 0 i u room) v)
          | inl v ↦
              let walked =
                branch_walk h b t hs (node 0 i) (node m n) a e nn q clear v (is_base-node i) in
              walk_case m n d room has u own v nb
                (agreed (node m n) (sym (ap (λ (r : Bool × Tree h b). r.0) walked) ∙ good))
        ]

    check_hash-genuine :
        i < 2 ^ 63
        → b.is_empty t.ack_out (parent (node 0 i)) ≡ true
        → (walk h b 64
            (write h b hs (node 0 i) a)
            t.ack_out
            t.verified
            (peak_for t.peaks (node 0 i))
            (node 0 i)
            a).broke
          ≡ false
        → (check_hash h b t hs (node 0 i) a).0 ≡ true
        → a ≡ leaf i
    check_hash-genuine fits clear nb good =
        elim (peak_for-Under t.peaks 0 i ok (omega arith, fits)) [
          | inl gone ↦ absurd (clash (sym good ∙ branch_none h b t hs (node 0 i) none_bin a gone))
          | inr (m, n, zero, e, has, tm, room, u) ↦
              let same : node 0 i ≡ node m n = ap (λ (x : ℕ). node x i) u.0 ∙ ap (node m) u.1 in
              let R = λ (x y : ℕ). hs (node x y) ≡ merkle h leaf x y in
              eq_sound (hs (node 0 i)) (
                sym (
                  branch_peak h b t hs (node 0 i) (node m n) a e (is_none-node m n tm)
                    ((==_iff _ _).1 (sym same)))
                ∙ good)
              ∙ subst (λ (x : ℕ). R x i) (sym u.0) (subst (R m) (sym u.1) (g.peak_hash m n has))
          | inr (m, n, suc d, e, has, tm, room, u) ↦
              let one : parent (node 0 i) ≡ node 1 (i / 2) =
                parent-node 0 i (omega arith, fits) (omega arith) in
              Under-case m n d room e has u clear
                (clear_chunk fits (ap (b.is_empty t.ack_out) (sym one) ∙ clear))
                (subst
                  (λ (x : Bin).
                    (walk h b 64 (write h b hs (node 0 i) a) t.ack_out t.verified x (node 0 i)
                      a).broke
                    ≡ false)
                  e nb)
                good
        ]
      where
        clash : true ≡ false → ⊥
        clash e = cc

-- In a tree that has its size, its hash file, peaks over at most 2 ^ 61 chunks and two binmaps that
-- answer `is_empty` by their base bins, in which the peaks and the proven bins hold their Merkle hashes,
-- a proven bin's parent is proven, above the base its sibling is too, and an acknowledged chunk below
-- its peak has a proven parent: `OfferHash` accepts for a chunk, of a number below 2 ^ 63, only the
-- chunk's own Merkle leaf, if no two pairs of digests collide, nothing under the chunk's parent is
-- acknowledged yet, and the walk does not break off at a zero hash.
pub offer_hash-Genuine :
    (h : Hashing) (b : BinSet)
    → IsCollisionFree h
    → (leaf : ℕ → h.Hash) (d : Disk h) (t : Tree h b) (hs : Bin → h.Hash) (i : ℕ) (a : h.Hash)
    → t.hashes ≡ some hs
    → t.size ≢ 0
    → i < 2 ^ 63
    → ArePeaks t.peaks
    → Genuine h b leaf hs t.peaks t.ack_out t.verified
    → b.is_empty t.ack_out (parent (of_layer 0 i)) ≡ true
    → (walk_for h b t hs i a).broke ≡ false
    → (offer_hash h b d t (of_layer 0 i) a).0 ≡ true
    → a ≡ leaf i
offer_hash-Genuine h b free leaf d t hs i a mapped sized fits ok g clear nb good =
    let e : of_layer 0 i ≡ node 0 i = of_layer-node 0 i (omega arith, fits) in
    let checked = offer_hash-check h b d t hs (of_layer 0 i) a mapped sized in
    check_hash-genuine h b free leaf t hs ok g i a fits
      (subst (λ (v : Bin). b.is_empty t.ack_out (parent v) ≡ true) e clear)
      (subst
        (λ (v : Bin).
          (walk h b 64 (write h b hs v a) t.ack_out t.verified (peak_for t.peaks v) v a).broke
          ≡ false)
        e nb)
      (subst (λ (v : Bin). (check_hash h b t hs v a).0 ≡ true) e
        (sym (ap (λ (r : Bool × Tree h b). r.0) checked) ∙ good))
