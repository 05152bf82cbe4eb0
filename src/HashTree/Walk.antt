-- ===== src/HashTree/Walk.antt =====
-- The three loops of `OfferHash`: the walk up to the nearest proven hash, and the two that mark
-- what it proved.
use libswift.Base.{ℕ, zero, suc, Bool, true, false, not, ◌&&◌, ◌||◌, if◌then◌else◌, ◌==◌}
use libswift.Base.Int.{eq_ℤ}
use libswift.Bin.{Bin, of_layer, parent, left, right, sibling, layer}
use libswift.BinSet.{BinSet}
use libswift.Hashing.{Hashing}

module _ (h : Hashing) (b : BinSet) where
  open h use {Hash, eq, zero_hash, pair}

  -- `hashes_[v.toUInt()] = a`
  abbrev pub write : (Bin → Hash) → Bin → Hash → Bin → Hash
  write hs v a w = if w == v then a else hs w

  -- `is_hash_verified_.is_empty(bin_t(0,p.toUInt()))` and `.set(…)`: the binmap as a bitmap.
  abbrev pub unproven : b.Set → Bin → Bool
  unproven verified v = b.is_empty verified (of_layer 0 v)

  abbrev pub prove : b.Set → Bin → b.Set
  prove verified v = b.set verified (of_layer 0 v)

  -- How the walk ended: at the bin `stop` with the hash `uphash`, and whether it broke off at a
  -- zero hash.
  pub record Walked : Type 0 where
    pub hashes : Bin → Hash
    pub stop : Bin
    pub uphash : Hash
    pub broke : Bool

  unfoldable pub walk : ℕ → (Bin → Hash) → b.Set → b.Set → Bin → Bin → Hash → Walked
  walk zero hs ack verified peak p uphash = record {
    hashes = hs;
    stop = p;
    uphash = uphash;
    broke = false;
  }
  walk (suc fuel) hs ack verified peak p uphash =
      let hs' = write hs p uphash in
      let p' = parent p in
      let l = hs' (left p') in
      let r = hs' (right p') in
      let rest = walk fuel hs' ack verified peak p' (pair l r) in
      if not (p == peak) && b.is_empty ack p && unproven verified p
      then (if eq l zero_hash || eq r zero_hash
          then record { hashes = hs'; stop = p'; uphash = uphash; broke = true }
          else rest)
      else record { hashes = hs; stop = p; uphash = uphash; broke = false }

  -- `while (p.layer() != peak.layer()) { p = p.parent().sibling(); … }`
  unfoldable pub mark_uncles : ℕ → b.Set → Bin → Bin → b.Set
  mark_uncles zero verified peak p = verified
  mark_uncles (suc fuel) verified peak p =
      let p' = sibling (parent p) in
      let rest = mark_uncles fuel (prove verified p') peak p' in
      if eq_ℤ (layer p) (layer peak) then verified else rest

  -- `while (p != peak) { p = p.parent(); … }`
  unfoldable pub mark_path : ℕ → b.Set → Bin → Bin → b.Set
  mark_path zero verified peak p = verified
  mark_path (suc fuel) verified peak p =
      let p' = parent p in
      let rest = mark_path fuel (prove verified p') peak p' in if p == peak then verified else rest
