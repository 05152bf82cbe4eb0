-- ===== src/HashTree.antt =====
-- hashtree.cpp: `MmapHashTree`, the Merkle tree over a static content. It accepts hashes and chunks
-- from peers, and is to accept a chunk only if its hash is the one under the root hash.
pub mod State
pub mod Walk
pub mod Peak
pub mod Offer
pub mod Recover
pub mod Spec
pub mod Kin
pub mod Climb
pub mod Sound
pub mod Proven
pub mod Branches
pub mod Accept
pub mod Forge
pub mod Forgery
