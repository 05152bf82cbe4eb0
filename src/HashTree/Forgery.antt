-- ===== src/HashTree/Forgery.antt =====
-- Two messages by which a peer has a chunk of its own accepted: the chunk's hash, sent as the hash
-- of the chunk's parent, and then the chunk.
use libswift.Base.{
  ℕ, suc, ◌/◌, ◌≤◌, ◌≡◌, ◌≢◌, inl, inr, Bool, true, false, refl, ap, sym, ◌∙◌, arith, Bool-cases,
  List, ◌==◌, ==-eq_false, some, length, ltb-eq_false,
}
use libswift.Bin.{Bin, parent, is_base, is_none}
use libswift.Bin.Layout.{node, InTree, is_none-node}
use libswift.Bin.Family.{buddy, and-one, parent-node}
use libswift.BinSet.{BinSet}
use libswift.Hashing.{Hashing}
use libswift.HashTree.State.{Tree, Disk, peak_for}
use libswift.HashTree.Walk.{write, unproven}
use libswift.HashTree.Offer.{offer_hash, offer_data}
use libswift.HashTree.Spec.{Under, HasRoom}
use libswift.HashTree.Kin.{HasRoom-InTree}
use libswift.HashTree.Climb.{node_layer}
use libswift.HashTree.Sound.{write_self, write_other}
use libswift.HashTree.Branches.{offer_hash-check, branch_inner, branch_walk}
use libswift.HashTree.Accept.{is_base-node}
use libswift.HashTree.Forge.{
  chunk_InTree, parent_InTree, chunk_ne_peak, parent_ne_peak, check_base-forged,
}

inner_not_base : (o : ℕ) → is_base (node 1 o) ≡ false
unfolding is_base
inner_not_base o = rw (and-one (node 1 o)) (ground arith)

-- `OfferData` accepts a full chunk whose hash `OfferHash` accepts.
offer_data-accepted :
    (h : Hashing) (b : BinSet) (d : Disk h) (t : Tree h b) (i : ℕ) (p : Bin) (bytes : List ℕ)
    → t.size ≢ 0
    → t.chunk_size ≤ length bytes
    → peak_for t.peaks (node 0 i) ≡ p
    → is_none p ≡ false
    → (offer_hash h b d t (node 0 i) (h.of_data bytes)).0 ≡ true
    → (offer_data h b d t (node 0 i) bytes).accepted ≡ true
unfolding offer_data
offer_data-accepted h b d t i p bytes sized full e some_peak good =
    elim (Bool-cases (b.is_filled t.ack_out (node 0 i))) [
      | inl f ↦ rw (==-eq_false t.size 0 sized, is_base-node i, ltb-eq_false _ _ full, f)
      | inr f ↦
          rw (
            ==-eq_false t.size 0 sized,
            is_base-node i,
            ltb-eq_false _ _ full,
            f,
            e,
            some_peak,
            good,
          )
    ]

module _ (h : Hashing) (b : BinSet) (d : Disk h) (t : Tree h b) (hs : Bin → h.Hash) (i m n k : ℕ)
    (bytes : List ℕ) where
  open h use {Hash, zero_hash, of_data}

  -- A chunk `i` two layers or more under its peak: nothing around it is acknowledged, neither it nor
  -- its parent is proven, and the hash of its sibling has not been received. `ack_out_` answers
  -- `is_empty` by its base bins.
  pub record Exposed : Type 0 where
    pub room : HasRoom m n
    pub under : Under (suc (suc k)) m n 0 i
    pub chunk_peak : peak_for t.peaks (node 0 i) ≡ node m n
    pub parent_peak : peak_for t.peaks (node 1 (i / 2)) ≡ node m n
    pub ack_sound : b.IsSound t.ack_out
    pub clear : b.is_empty t.ack_out (node 2 (i / 4)) ≡ true
    pub chunk_unproven : unproven h b t.verified (node 0 i) ≡ true
    pub parent_unproven : unproven h b t.verified (node 1 (i / 2)) ≡ true
    pub sibling_waits : hs (node 0 (buddy i)) ≡ zero_hash

  module _ (x : Exposed) where
    a : Hash
    a = of_data bytes

    t0 : InTree 0 i
    t0 = chunk_InTree h b t hs (of_data bytes) i m n k x.room x.under

    t1 : InTree 1 (i / 2)
    t1 = parent_InTree h b t hs (of_data bytes) i m n k x.room x.under

    peak_some : is_none (node m n) ≡ false
    peak_some = is_none-node m n (HasRoom-InTree m n x.room)

    t2 : InTree 2 (i / 4)
    t2 = (omega arith, omega (arith, t1))

    fourth : i / 2 / 2 ≡ i / 4
    fourth = omega arith

    above_parent : parent (node 1 (i / 2)) ≡ node 2 (i / 4)
    above_parent = parent-node 1 (i / 2) t1 (omega arith) ∙ ap (node 2) fourth

    above_chunk : parent (node 0 i) ≡ node 1 (i / 2)
    above_chunk = parent-node 0 i t0 (omega arith)

    clear_parent : b.is_empty t.ack_out (node 1 (i / 2)) ≡ true
    clear_parent =
        (b.is_empty_iff t.ack_out x.ack_sound 1 (i / 2) t1).1
          λ y c. (b.is_empty_iff t.ack_out x.ack_sound 2 (i / 4) t2).0 x.clear y (ground arith)

    clear_chunk : b.is_empty t.ack_out (node 0 i) ≡ true
    clear_chunk =
        (b.is_empty_iff t.ack_out x.ack_sound 0 i t0).1
          λ y c. (b.is_empty_iff t.ack_out x.ack_sound 2 (i / 4) t2).0 x.clear y (ground arith)

    abbrev planted : Bin → Hash
    planted = write h b hs (node 1 (i / 2)) (of_data bytes)

    -- The first message is refused, but stored.
    first_message :
        t.hashes ≡ some hs
        → t.size ≢ 0
        → offer_hash h b d t (node 1 (i / 2)) (of_data bytes)
          ≡ (false, record t { hashes = some planted })
    first_message mapped sized =
        offer_hash-check h b d t hs (node 1 (i / 2)) (of_data bytes) mapped sized
        ∙ branch_inner h b t hs (node 1 (i / 2)) (node m n) (of_data bytes) x.parent_peak peak_some
            (==-eq_false _ _
              (λ e. parent_ne_peak h b t hs (of_data bytes) i m n k x.room x.under (sym e)))
            (ap (b.is_empty t.ack_out) above_parent ∙ x.clear) x.parent_unproven
            (inner_not_base (i / 2))

    second_message :
        t.size ≢ 0
        → (offer_hash h b d (record t { hashes = some planted }) (node 0 i) (of_data bytes)).0
          ≡ true
    second_message sized =
        let t' : Tree h b = record t { hashes = some planted } in
        let apart : (node 0 i == node m n) ≡ false =
          ==-eq_false _ _ (chunk_ne_peak h b t hs (of_data bytes) i m n k x.room x.under) in
        let apart_layer : node 0 (buddy i) ≢ node 1 (i / 2) =
          λ e. absurd (omega (arith, node_layer 0 (buddy i) 1 (i / 2) (omega (arith, t0)) t1 e)) in
        let walked =
          offer_hash-check h b d t' planted (node 0 i) (of_data bytes) refl sized
          ∙ branch_walk h b t' planted (node 0 i) (node m n) (of_data bytes) x.chunk_peak peak_some
              (==-eq_false _ _
                (λ e. chunk_ne_peak h b t hs (of_data bytes) i m n k x.room x.under (sym e)))
              (ap (b.is_empty t.ack_out) above_chunk ∙ clear_parent) x.chunk_unproven
              (is_base-node i) in
        ap (λ (r : Bool × Tree h b). r.0) walked
        ∙ check_base-forged h b t' planted (of_data bytes) i m n k x.room x.under
            (write_other h b hs (node 1 (i / 2)) (of_data bytes) (node 0 (buddy i)) apart_layer
              ∙ x.sibling_waits)
            (write_self h b hs (node 1 (i / 2)) (of_data bytes))
            (rw (apart, clear_chunk, x.chunk_unproven))

    accepted_in :
        t.hashes ≡ some hs
        → t.size ≢ 0
        → t.chunk_size ≤ length bytes
        → (offer_data h b d
            (offer_hash h b d t (node 1 (i / 2)) (of_data bytes)).1
            (node 0 i)
            bytes).accepted
          ≡ true
    accepted_in mapped sized full =
        let t' : Tree h b = record t { hashes = some planted } in
        ap (λ (r : Bool × Tree h b). (offer_data h b d r.1 (node 0 i) bytes).accepted)
          (first_message mapped sized)
        ∙ offer_data-accepted h b d t' i (node m n) bytes sized full x.chunk_peak peak_some
            (second_message sized)

-- In a tree that has its size, its hash file and an `ack_out_` that answers `is_empty` by its base
-- bins, at a chunk two layers or more under its peak, which is the peak of its parent too, where
-- nothing under the chunk's grandparent is acknowledged, neither the chunk nor its parent is
-- proven, and the sibling's hash has not been received: `OfferHash` of the hash of any bytes for
-- the chunk's parent is refused, and right after it `OfferData` accepts those bytes, if they fill a
-- chunk, as the chunk.
pub forged_chunk-accepted :
    (h : Hashing) (b : BinSet) (d : Disk h) (t : Tree h b) (hs : Bin → h.Hash) (i m n k : ℕ)
    (bytes : List ℕ)
    → Exposed h b d t hs i m n k bytes
    → t.hashes ≡ some hs
    → t.size ≢ 0
    → t.chunk_size ≤ length bytes
    → let first = offer_hash h b d t (node 1 (i / 2)) (h.of_data bytes) in
      (first.0 ≡ false) × ((offer_data h b d first.1 (node 0 i) bytes).accepted ≡ true)
forged_chunk-accepted h b d t hs i m n k bytes x mapped sized full = (
  ap (λ (r : Bool × Tree h b). r.0) (first_message h b d t hs i m n k bytes x mapped sized),
  accepted_in h b d t hs i m n k bytes x mapped sized full,
)
