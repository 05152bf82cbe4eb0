-- ===== src/HashTree/Branches.antt =====
-- The ways through `OfferHash` for a bin `pos`, given what `peak_for` finds for it.
use libswift.Base.{◌≡◌, ◌≢◌, true, false, arith, some, ◌==◌}
use libswift.Bin.{Bin, none_bin, parent, is_base, is_none, of_layer}
use libswift.BinSet.{BinSet}
use libswift.Hashing.{Hashing}
use libswift.HashTree.State.{Tree, Disk, peak_for}
use libswift.HashTree.Walk.{unproven, write}
use libswift.HashTree.Offer.{check_base, check_hash, offer_hash}

module _ (h : Hashing) (b : BinSet) where
  open h use {Hash, eq}

  -- With a size and a mapped hash file, the hash is checked.
  pub offer_hash-check :
      (d : Disk h) (t : Tree h b) (hs : Bin → Hash) (pos : Bin) (a : Hash)
      → t.hashes ≡ some hs
      → t.size ≢ 0
      → offer_hash h b d t pos a ≡ check_hash h b t hs pos a
  unfolding offer_hash
  offer_hash-check d t hs pos a e ne = ground arith

  module _ (t : Tree h b) (hs : Bin → Hash) (pos p : Bin) (a : Hash) where
    pub branch_none : peak_for t.peaks pos ≡ none_bin → (check_hash h b t hs pos a).0 ≡ false
    unfolding check_hash is_none of_layer
    branch_none e = rw e

    module _ (e : peak_for t.peaks pos ≡ p) (some_peak : is_none p ≡ false) where
      pub branch_peak : (p == pos) ≡ true → (check_hash h b t hs pos a).0 ≡ eq a (hs pos)
      unfolding check_hash
      branch_peak q = rw (e, some_peak, q)

      module _ (q : (p == pos) ≡ false) (clear : b.is_empty t.ack_out (parent pos) ≡ true) where
        pub branch_proven :
            unproven h b t.verified pos ≡ false → (check_hash h b t hs pos a).0 ≡ eq a (hs pos)
        unfolding check_hash
        branch_proven v = rw (e, some_peak, q, clear, v)

        pub branch_inner :
            unproven h b t.verified pos ≡ true
            → is_base pos ≡ false
            → check_hash h b t hs pos a ≡ (false, record t { hashes = some (write h b hs pos a) })
        unfolding check_hash
        branch_inner v w = rw (e, some_peak, q, clear, v, w)

        pub branch_walk :
            unproven h b t.verified pos ≡ true
            → is_base pos ≡ true
            → check_hash h b t hs pos a ≡ check_base h b t hs p pos a
        unfolding check_hash
        branch_walk v w = rw (e, some_peak, q, clear, v, w)
