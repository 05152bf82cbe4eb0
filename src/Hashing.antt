-- ===== src/Hashing.antt =====
-- The SHA-1 digests of the tree. The hash function is a copy of another project's code (sha1.cpp),
-- so it is a parameter: a type of digests, their comparison, `Sha1Hash::ZERO`, and the two
-- constructors that hash a pair of digests and a chunk of data.
use libswift.Base.{ℕ, ◌≡◌, ◌↔◌, Bool, true, List}

pub record Hashing : Type 1 where
  pub Hash : Type 0
  pub eq : Hash → Hash → Bool
  pub eq_iff : (a b : Hash) → (eq a b ≡ true) ↔ (a ≡ b)
  pub zero_hash : Hash
  pub pair : Hash → Hash → Hash
  pub of_data : List ℕ → Hash

-- No two pairs of digests with one hash are known: the assumption under which a Merkle tree
-- protects its content.
abbrev pub IsCollisionFree : Hashing → Type 0
IsCollisionFree h = (a b c d : h.Hash) → h.pair a b ≡ h.pair c d → (a ≡ c) × (b ≡ d)
