-- ===== src/HashTree/Forge.antt =====
-- The walk of `OfferHash` breaks off where a child's hash is zero, that is, not received yet. The
-- code then compares the hash of the child that it came from with the stored hash of the parent,
-- and any peer can store that one.
use mathlib.Core.Path.{subst}
use native.Mathlib.Decide.{ℕ_discrete}
use libswift.Base.{
  ℕ, suc, ◌+◌, ◌*◌, ◌/◌, ◌%◌, ◌≡◌, ◌≢◌, Bool, true, false, ◌||◌, refl, ap, sym, ◌∙◌, arith,
}
use libswift.Bin.{Bin}
use libswift.Bin.Layout.{node, InTree}
use libswift.Bin.Family.{buddy}
use libswift.BinSet.{BinSet}
use libswift.Hashing.{Hashing}
use libswift.HashTree.State.{Tree}
use libswift.HashTree.Walk.{Walked, write}
use libswift.HashTree.Offer.{check_base}
use libswift.HashTree.Spec.{Under, HasRoom}
use libswift.HashTree.Kin.{Under-layer, Under-HasRoom, HasRoom-InTree}
use libswift.HashTree.Climb.{node_layer, node_offset, goes, first, second, walk-breaks}
use libswift.HashTree.Sound.{write_other}

module _ (h : Hashing) (b : BinSet) (t : Tree h b) (hs : Bin → h.Hash) (a : h.Hash) (i m n d : ℕ)
    (room : HasRoom m n) (u : Under (suc (suc d)) m n 0 i) where
  open h use {Hash, eq, eq_iff, zero_hash}

  -- Two layers or more under its peak, the chunk and its parent are other bins than the peak.
  pub chunk_InTree : InTree 0 i
  chunk_InTree = HasRoom-InTree 0 i (Under-HasRoom (suc (suc d)) m n 0 i u room)

  pub parent_InTree : InTree 1 (i / 2)
  parent_InTree = HasRoom-InTree 1 (i / 2) (Under-HasRoom (suc d) m n 1 (i / 2) u room)

  pub chunk_ne_peak : node 0 i ≢ node m n
  chunk_ne_peak e =
      let same = node_layer 0 i m n chunk_InTree (HasRoom-InTree m n room) e in
      omega (arith, Under-layer (suc (suc d)) m n 0 i u)

  pub parent_ne_peak : node 1 (i / 2) ≢ node m n
  parent_ne_peak e =
      let same = node_layer 1 (i / 2) m n parent_InTree (HasRoom-InTree m n room) e in
      omega (arith, Under-layer (suc d) m n 1 (i / 2) u)

  module _ (waits : hs (node 0 (buddy i)) ≡ zero_hash) (planted : hs (node 1 (i / 2)) ≡ a)
      (goes_on : goes h b t.ack_out t.verified m n room 0 i ≡ true) where
    start : Bin → Hash
    start = write h b hs (node 0 i) a

    self_eq : (x y : Hash) → x ≡ y → eq x y ≡ true
    self_eq x y e = (eq_iff x y).1 e

    abbrev again : Bin → Hash
    unfolding start
    again = write h b start (node 0 i) a

    again_other : (v : Bin) → v ≢ node 0 i → again v ≡ hs v
    unfolding start
    again_other v ne =
        write_other h b start (node 0 i) a v ne ∙ write_other h b hs (node 0 i) a v ne

    buddy_zero : again (node 0 (buddy i)) ≡ zero_hash
    unfolding start
    buddy_zero =
        again_other (node 0 (buddy i))
          (λ e. absurd (let same : buddy i ≡ i = node_offset 0 (buddy i) i e in omega arith))
        ∙ waits

    zero_seen :
        (eq (first h b t.ack_out t.verified m n room start a 0 0 i) zero_hash
          || eq (second h b t.ack_out t.verified m n room start a 0 0 i) zero_hash)
        ≡ true
    unfolding start
    zero_seen = elim (ℕ_discrete (i % 2) 0) [
      | yes even ↦
          let c : 2 * (i / 2) + 1 ≡ buddy i = omega arith in
          or_right _ _ (self_eq _ _ (ap (λ (x : ℕ). again (node 0 x)) c ∙ buddy_zero))
      | no odd ↦
          let c : 2 * (i / 2) ≡ buddy i = omega arith in
          or_left _ _ (self_eq _ _ (ap (λ (x : ℕ). again (node 0 x)) c ∙ buddy_zero))
    ]
      where
        or_right : (x y : Bool) → y ≡ true → (x || y) ≡ true
        or_right true y e = refl
        or_right false y e = e

        or_left : (x y : Bool) → x ≡ true → (x || y) ≡ true
        or_left true y e = refl
        or_left false y e = cc

    pub check_base-forged : (check_base h b t hs (node m n) (node 0 i) a).0 ≡ true
    unfolding check_base start
    check_base-forged =
        let broken =
          walk-breaks h b t.ack_out t.verified m n room start a 63 0 i (suc d) u goes_on
            zero_seen in
        let R = λ (w : Walked h b). eq w.uphash (w.hashes w.stop) ≡ true in
        subst R (sym broken) (
          self_eq a _ (
            sym (
              again_other (node 1 (i / 2)) (λ e.
                absurd
                  (let same = node_layer 1 (i / 2) 0 i parent_InTree chunk_InTree e in omega arith))
              ∙ planted)))
