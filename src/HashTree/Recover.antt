-- ===== src/HashTree/Recover.antt =====
-- `RecoverPeakHashes`: a tree learns its size again from the peak hashes in its hash file.
use libswift.Base.{ℕ, zero, suc, Bool, false, not, Option, none, some, List, [], ◌∷◌, ◌==◌}
use libswift.Bin.{Bin}
use libswift.BinUtils.{gen_peaks}
use libswift.BinSet.{BinSet}
use libswift.Hashing.{Hashing}
use libswift.HashTree.State.{Tree, Disk}
use libswift.HashTree.Peak.{chunks, offer_peak_hash}

-- The entries before the closing NONE.
unfoldable pub first_bins : ℕ → List Bin → List Bin
first_bins zero ps = []
first_bins (suc n) [] = []
first_bins (suc n) (p ∷ ps) = p ∷ first_bins n ps

module _ (h : Hashing) (b : BinSet) (d : Disk h) (file : Bin → Option h.Hash) where
  -- The loop over the peaks; `file` is what a read of the hash file at a bin gives.
  unfoldable pub recover_peaks : List Bin → Tree h b → Bool × Tree h b
  unfolding offer_peak_hash
  recover_peaks [] t = (not (t.size == 0), t)
  recover_peaks (p ∷ ps) t = elim (file p) [
    | none ↦ (false, t)
    | some a ↦ recover_peaks ps (offer_peak_hash h b d t p a).1
  ]

  -- `RecoverPeakHashes`, given the reserved size, `none` where the storage has none.
  unfoldable pub recover_peak_hashes : Option ℕ → Tree h b → Bool × Tree h b
  unfolding recover_peaks gen_peaks first_bins
  recover_peak_hashes none t = (false, t)
  recover_peak_hashes (some size) t =
      let peaks = gen_peaks (chunks h size t.chunk_size) in
      recover_peaks (first_bins peaks.count peaks.bins) t
