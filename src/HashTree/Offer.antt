-- ===== src/HashTree/Offer.antt =====
-- `OfferHash` and `OfferData`: what the tree does with a hash and with a chunk from a peer.
use libswift.Base.{
  ℕ, ◌*◌, Bool, true, false, not, ◌&&◌, Option, none, some, List, if◌then◌else◌, ◌==◌, ltb, length,
}
use libswift.Word.{add64, sub64, u64}
use libswift.Bin.{Bin, of_layer, parent, is_none, is_base, base_offset}
use libswift.BinSet.{BinSet}
use libswift.Hashing.{Hashing}
use libswift.HashTree.State.{Tree, Disk, peak_for}
use libswift.HashTree.Walk.{write, unproven, prove, walk, mark_uncles, mark_path}
use libswift.HashTree.Peak.{offer_peak_hash}

module _ (h : Hashing) (b : BinSet) where
  open h use {Hash, eq, of_data}

  -- The walk from a base bin, and the marks after a success. A walk has at most one round for each
  -- of the 64 layers.
  unfoldable pub check_base : Tree h b → (Bin → Hash) → Bin → Bin → Hash → Bool × Tree h b
  check_base t hs peak pos a =
      let w = walk h b 64 (write h b hs pos a) t.ack_out t.verified peak pos a in
      let success = eq w.uphash (w.hashes w.stop) in
      let uncles = mark_uncles h b 64 (prove h b t.verified pos) peak pos in
      let marked = mark_path h b 64 uncles peak pos in
      (
        success,
        record t { hashes = some w.hashes; verified = if success then marked else t.verified },
      )

  -- `OfferHash` once the hash file is mapped.
  unfoldable pub check_hash : Tree h b → (Bin → Hash) → Bin → Hash → Bool × Tree h b
  check_hash t hs pos a =
      let peak = peak_for t.peaks pos in
      if is_none peak
      then (false, t)
      else if peak == pos
      then (eq a (hs pos), t)
      else if not (b.is_empty t.ack_out (parent pos))
      then (eq a (hs pos), t)
      else if not (unproven h b t.verified pos)
      then (eq a (hs pos), t)
      else if not (is_base pos)
      then (false, record t { hashes = some (write h b hs pos a) })
      else check_base t hs peak pos a

  offer_mapped : Tree h b → Option (Bin → Hash) → Bin → Hash → Bool × Tree h b
  unfolding check_hash
  offer_mapped t none pos a = (false, t)
  offer_mapped t (some hs) pos a = check_hash t hs pos a

  -- `OfferHash`: while the size is unknown, only peak hashes are accepted.
  unfoldable pub offer_hash : Disk h → Tree h b → Bin → Hash → Bool × Tree h b
  unfolding offer_mapped
  offer_hash d t pos a =
      if t.size == 0 then offer_peak_hash h b d t pos a else offer_mapped t t.hashes pos a

  -- The chunk's bookkeeping once its hash is accepted. The last chunk settles the size.
  unfoldable pub accept : Tree h b → Bin → ℕ → Tree h b
  accept t pos len =
      let size' =
        if base_offset pos == sub64 t.sizec 1
        then add64 (u64 (sub64 t.sizec 1 * t.chunk_size)) len
        else t.size in
      record t {
        ack_out = b.set t.ack_out pos;
        complete = add64 t.complete len;
        completec = add64 t.completec 1;
        size = size';
      }

  -- `OfferData`: whether the chunk is accepted, the bytes written to the storage, if any, with
  -- their position, and the size that the storage is resized to, if it is.
  pub record Offered : Type 0 where
    pub accepted : Bool
    pub tree : Tree h b
    pub written : Option (ℕ × List ℕ)
    pub resized : Option ℕ

  -- The last chunk resizes a storage of another size.
  final_size : Disk h → Tree h b → Bin → ℕ → Option ℕ
  final_size d t pos size' =
      if base_offset pos == sub64 t.sizec 1 && not (d.reserved == size') then some size' else none

  unfoldable pub offer_data : Disk h → Tree h b → Bin → List ℕ → Offered
  unfolding accept final_size
  offer_data d t pos bytes =
      let refused : Offered = record {
        accepted = false;
        tree = t;
        written = none;
        resized = none;
      } in
      if t.size == 0
      then refused
      else if not (is_base pos)
      then refused
      else if ltb (length bytes) t.chunk_size && not (pos == of_layer 0 (sub64 t.sizec 1))
      then refused
      else if b.is_filled t.ack_out pos
      then record { accepted = true; tree = t; written = none; resized = none }
      else if is_none (peak_for t.peaks pos)
      then refused
      else (let (good, t') = offer_hash d t pos (of_data bytes) in
          if good
          then record {
            accepted = true;
            tree = accept t' pos (length bytes);
            written = some (u64 (base_offset pos * t.chunk_size), bytes);
            resized = final_size d t' pos (accept t' pos (length bytes)).size;
          }
          else record { accepted = false; tree = t'; written = none; resized = none })
