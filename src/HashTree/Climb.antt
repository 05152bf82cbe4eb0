-- ===== src/HashTree/Climb.antt =====
-- The walk of `OfferHash` along the bins between a chunk and its peak: how one round goes, and what
-- a walk that ends in agreement proves.
use libswift.Base.{
  ℕ, suc, ◌+◌, ◌-◌, ◌*◌, ◌/◌, ◌^◌, ◌<◌, ◌≡◌, Bool, true, false, not, ◌&&◌, ◌||◌, ap, sym, ◌∙◌,
  arith, ◌==◌,
}
use libswift.Base.Int.{pos}
use libswift.Bits.Fields.{pow_double, pow_pos, div_fields}
use libswift.Bin.{Bin, parent, layer}
use libswift.Bin.Layout.{node, InTree}
use libswift.Bin.Layer.{layer-node}
use libswift.Bin.Family.{parent-node, left-node, right-node}
use libswift.BinSet.{BinSet}
use libswift.Hashing.{Hashing}
use libswift.HashTree.Walk.{write, unproven, walk}
use libswift.HashTree.Spec.{Under, HasRoom}
use libswift.HashTree.Kin.{Under-HasRoom, HasRoom-InTree}

-- A bin's number tells its layer and its offset.
pub node_layer : (l o k i : ℕ) → InTree l o → InTree k i → node l o ≡ node k i → l ≡ k
node_layer l o k i t u e = pos_inj (sym (layer-node l o t) ∙ ap layer e ∙ layer-node k i u)
  where
    pos_inj : {a c : ℕ} → pos a ≡ pos c → a ≡ c
    pos_inj e = cc

pub node_offset : (l o i : ℕ) → node l o ≡ node l i → o ≡ i
node_offset l o i e =
    sym (div_fields (2 ^ suc l) o (2 ^ l - 1) (omega (arith, pow_double l, pow_pos l)))
    ∙ ap (λ (v : Bin). v / 2 ^ suc l) e
    ∙ div_fields (2 ^ suc l) i (2 ^ l - 1) (omega (arith, pow_double l, pow_pos l))

module _ (h : Hashing) (b : BinSet) (ack verified : b.Set) (m n : ℕ) (room : HasRoom m n) where
  open h use {Hash, eq, zero_hash, pair}

  -- The test of the walk's loop.
  abbrev pub goes : ℕ → ℕ → Bool
  goes l o =
      not (node l o == node m n) && b.is_empty ack (node l o) && unproven h b verified (node l o)

  pub under-InTree : (d l o : ℕ) → Under d m n l o → InTree l o
  under-InTree d l o u = HasRoom-InTree l o (Under-HasRoom d m n l o u room)

  module _ (hs : Bin → Hash) (a : Hash) (f l o : ℕ) where
    -- The hashes of the two children of the bin's parent, after the bin's own is written.
    abbrev pub written : Bin → Hash
    written = write h b hs (node l o) a

    abbrev pub first : Hash
    first = written (node l (2 * (o / 2)))

    abbrev pub second : Hash
    second = written (node l (2 * (o / 2) + 1))

    pub walk-stops :
        goes l o ≡ false
        → walk h b (suc f) hs ack verified (node m n) (node l o) a
          ≡ record { hashes = hs; stop = node l o; uphash = a; broke = false }
    unfolding walk
    walk-stops e = rw e

    module _ (d : ℕ) (u : Under (suc d) m n l o) where
      up_InTree : InTree (suc l) (o / 2)
      up_InTree = under-InTree d (suc l) (o / 2) u

      below : l < 63
      below = omega (arith, up_InTree)

      up : parent (node l o) ≡ node (suc l) (o / 2)
      up = parent-node l o (under-InTree (suc d) l o u) below

      pub walk-breaks :
          goes l o ≡ true
          → (eq first zero_hash || eq second zero_hash) ≡ true
          → walk h b (suc f) hs ack verified (node m n) (node l o) a
            ≡ record { hashes = written; stop = node (suc l) (o / 2); uphash = a; broke = true }
      unfolding walk
      walk-breaks e z = rw (e, up, left-node l (o / 2) up_InTree, right-node l (o / 2) up_InTree, z)

      pub walk-goes :
          goes l o ≡ true
          → (eq first zero_hash || eq second zero_hash) ≡ false
          → walk h b (suc f) hs ack verified (node m n) (node l o) a
            ≡ walk h b f written ack verified (node m n) (node (suc l) (o / 2)) (pair first second)
      unfolding walk
      walk-goes e z = rw (e, up, left-node l (o / 2) up_InTree, right-node l (o / 2) up_InTree, z)
