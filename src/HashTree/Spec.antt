-- ===== src/HashTree/Spec.antt =====
-- What a Merkle tree of chunk hashes is, and the invariant of a tree that has learned its peaks.
-- Nothing here is taken from the code.
use libswift.Base.{ℕ, zero, suc, ◌+◌, ◌*◌, ◌/◌, ◌^◌, ◌≤◌, ◌≡◌, ◌⊎◌, true, List, [], ◌∷◌}
use libswift.Bin.{Bin}
use libswift.Bin.Layout.{node, InTree}
use libswift.Bin.Family.{buddy}
use libswift.BinSet.{BinSet}
use libswift.Hashing.{Hashing}

-- The hash of the bin at layer `l` and offset `o`, from the hashes of the chunks.
abbrev pub merkle : (h : Hashing) → (ℕ → h.Hash) → ℕ → ℕ → h.Hash
merkle h leaf zero o = leaf o
merkle h leaf (suc l) o = h.pair (merkle h leaf l (2 * o)) (merkle h leaf l (2 * o + 1))

-- The bin at layer `l` and offset `o` lies `d` layers under the bin at layer `m` and offset `n`.
abbrev pub Under : ℕ → ℕ → ℕ → ℕ → ℕ → Type 0
Under zero m n l o = (l ≡ m) × (o ≡ n)
Under (suc d) m n l o = Under d m n (suc l) (o / 2)

-- The peaks hold the bin at layer `m` and offset `n`.
abbrev pub HasPeak {ℓ} : {A : Type ℓ} → List (Bin × A) → ℕ → ℕ → Type 0
HasPeak [] m n = ⊥
HasPeak ((p, a) ∷ ps) m n = (p ≡ node m n) ⊎ HasPeak ps m n

-- The room that a bin needs so that its number can name a base bin, as `is_hash_verified_` does.
abbrev pub HasRoom : ℕ → ℕ → Type 0
HasRoom m n = n * 2 ^ m + 2 ^ m ≤ 2 ^ 61

-- Every peak is a bin of a content of at most 2 ^ 61 chunks.
abbrev pub ArePeaks {ℓ} : {A : Type ℓ} → List (Bin × A) → Type 0
ArePeaks [] = Unit
ArePeaks ((p, a) ∷ ps) =
    ((m : ℕ) × (n : ℕ) × (p ≡ node m n) × InTree m n × HasRoom m n) × ArePeaks ps

module _ (h : Hashing) (b : BinSet) where
  -- Whether the bin's hash is marked in `is_hash_verified_`.
  abbrev pub IsProven : b.Set → ℕ → ℕ → Type 0
  IsProven verified l o = b.mem verified (node l o) ≡ true

  -- A tree of the content with the chunk hashes `leaf`: the peaks and the proven bins have their
  -- Merkle hashes; a proven bin's parent is proven, and above the base its sibling is too; a chunk
  -- that is acknowledged has a proven parent, unless it is a peak itself. The two sets answer
  -- `is_empty` by their base bins.
  pub record Genuine (leaf : ℕ → h.Hash) (hs : Bin → h.Hash) (peaks : List (Bin × h.Hash))
      (ack verified : b.Set) : Type 0 where
    pub ack_sound : b.IsSound ack
    pub verified_sound : b.IsSound verified
    pub peak_hash : (m n : ℕ) → HasPeak peaks m n → hs (node m n) ≡ merkle h leaf m n
    pub proven_hash :
        (d m n l o : ℕ)
        → HasPeak peaks m n
        → Under d m n l o
        → IsProven verified l o
        → hs (node l o) ≡ merkle h leaf l o
    pub proven_parent :
        (d m n l o : ℕ)
        → HasPeak peaks m n
        → Under (suc d) m n l o
        → IsProven verified l o
        → IsProven verified (suc l) (o / 2)
    pub proven_sibling :
        (d m n l o : ℕ)
        → HasPeak peaks m n
        → Under (suc d) m n (suc l) o
        → IsProven verified (suc l) o
        → IsProven verified (suc l) (buddy o)
    pub acked_parent :
        (d m n i : ℕ)
        → HasPeak peaks m n
        → Under (suc d) m n 0 i
        → b.mem ack i ≡ true
        → IsProven verified 1 (i / 2)
