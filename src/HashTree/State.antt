-- ===== src/HashTree/State.antt =====
-- The fields of `MmapHashTree`, and the helpers on them that do not change them.
use libswift.Base.{ℕ, Bool, Option, List, [], ◌∷◌, if◌then◌else◌}
use libswift.Bin.{Bin, none_bin, contains}
use libswift.BinSet.{BinSet}
use libswift.Hashing.{Hashing}

-- `peaks_` and `peak_hashes_` are read together, as a list of `peak_count_` pairs. `hashes_` is the
-- mapped hash file, `none` where the pointer is NULL. `hash_file_open` is `hash_fd_ != -1`, and
-- `working` is the flag that `SetBroken` clears.
pub record Tree (h : Hashing) (b : BinSet) : Type 0 where
  pub root_hash : h.Hash
  pub hashes : Option (Bin → h.Hash)
  pub peaks : List (Bin × h.Hash)
  pub hash_file_open : Bool
  pub size : ℕ
  pub sizec : ℕ
  pub complete : ℕ
  pub completec : ℕ
  pub ack_out : b.Set
  pub verified : b.Set
  pub chunk_size : ℕ
  pub working : Bool

-- What the storage and the operating system answer during one call: the reserved size, whether a
-- resize to a size fails, whether the hash file opens and maps, and what it then holds.
pub record Disk (h : Hashing) : Type 0 where
  pub reserved : ℕ
  pub resize_fails : ℕ → Bool
  pub opens : Bool
  pub maps : Bool
  pub hash_file : Bin → h.Hash

-- `peak_for`: the loop over `peaks_`, NONE where no peak contains the bin.
unfoldable pub peak_for {ℓ} : {A : Type ℓ} → List (Bin × A) → Bin → Bin
unfolding contains
peak_for [] pos = none_bin
peak_for ((p, a) ∷ ps) pos = if contains p pos then p else peak_for ps pos
