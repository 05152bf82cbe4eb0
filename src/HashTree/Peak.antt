-- ===== src/HashTree/Peak.antt =====
-- `OfferPeakHash` and `DeriveRoot`: a tree learns its size from peak hashes that add up to its root
-- hash.
use mathlib.Core.List.{reverse}
use libswift.Base.{
  ℕ, zero, suc, ◌*◌, ◌/◌, Bool, true, false, not, ◌||◌, none, some, List, [], ◌∷◌, ◌++◌,
  if◌then◌else◌, ◌==◌, leb, ltb,
}
use libswift.Base.Int.{ltb_ℤ}
use libswift.Word.{add64, sub64, u64}
use libswift.Bin.{Bin, parent, sibling, layer, is_left, base_offset, base_length}
use libswift.BinSet.{BinSet}
use libswift.Hashing.{Hashing}
use libswift.HashTree.State.{Tree, Disk}
use libswift.HashTree.Walk.{write}

module _ (h : Hashing) where
  open h use {Hash, eq, zero_hash, pair}

  -- The loop of `DeriveRoot` from the bin `p` on, with the peaks to its left, the nearest first.
  -- `p` climbs at most once for each of the 64 layers between two peaks, and once for each peak.
  unfoldable pub derive_loop : ℕ → Bin → Hash → List (Bin × Hash) → Hash
  derive_loop zero p a rest = a
  derive_loop (suc fuel) p a [] = a
  derive_loop (suc fuel) p a ((q, c) ∷ rest) =
      let up = derive_loop fuel (parent p) (pair a zero_hash) ((q, c) ∷ rest) in
      let join = derive_loop fuel (parent p) (pair c a) rest in
      if is_left p then up else if not (q == sibling p) then zero_hash else join

  -- `DeriveRoot` is called with at least one peak.
  derive_from : List (Bin × Hash) → Hash
  unfolding derive_loop
  derive_from [] = zero_hash
  derive_from ((p, a) ∷ rest) = derive_loop 192 p a rest

  unfoldable pub derive_root : List (Bin × Hash) → Hash
  unfolding derive_from
  derive_root peaks = derive_from (reverse peaks)

  -- The peaks that stay: `OfferPeakHash` drops them all unless the new one follows the last one.
  follows : List (Bin × Hash) → Bin → List (Bin × Hash) → List (Bin × Hash)
  follows [] pos peaks = peaks
  follows ((last, a) ∷ rest) pos peaks =
      if not (ltb_ℤ (layer pos) (layer last))
        || not (base_offset pos == add64 (base_offset last) (base_length last))
      then []
      else peaks

  unfoldable pub with_peak : List (Bin × Hash) → Bin → Hash → List (Bin × Hash)
  unfolding follows
  with_peak peaks pos a = follows (reverse peaks) pos peaks ++ (pos, a) ∷ []

  -- `sizec_ += peaks_[i].base_length()` over the peaks.
  unfoldable pub add_lengths : ℕ → List (Bin × Hash) → ℕ
  add_lengths n [] = n
  add_lengths n ((p, a) ∷ ps) = add_lengths (add64 n (base_length p)) ps

  -- `hashes_[peaks_[i].toUInt()] = peak_hashes_[i]` over the peaks.
  unfoldable pub write_peaks : (b : BinSet) → (Bin → Hash) → List (Bin × Hash) → Bin → Hash
  write_peaks b hs [] = hs
  write_peaks b hs ((p, a) ∷ ps) = write_peaks b (write h b hs p a) ps

  -- `(size_ + chunk_size_-1) / chunk_size_`; the chunk size is not 0.
  abbrev pub chunks : ℕ → ℕ → ℕ
  chunks size chunk_size = sub64 (add64 size chunk_size) 1 / chunk_size

  module _ (b : BinSet) (d : Disk h) where
    -- From the mapping of the hash file on.
    unfoldable pub map_hashes : Tree h b → Bool × Tree h b
    map_hashes t =
        if d.maps
        then (true, record t { hashes = some (write_peaks b d.hash_file t.peaks) })
        else (false, record t { hashes = none; size = 0; sizec = 0; complete = 0; completec = 0 })

    -- `OpenHashFile`: whether it succeeds, and the tree.
    unfoldable pub open_hash_file : Tree h b → Bool × Tree h b
    open_hash_file t =
        if d.opens
        then (true, record t { hash_file_open = true })
        else (false, record t { hash_file_open = false; working = false })

    -- The hash file is made only now.
    unfoldable pub open_hashes : Tree h b → Bool × Tree h b
    unfolding map_hashes open_hash_file
    open_hashes t =
        let (opened, t') = open_hash_file t in
        if t.hash_file_open then map_hashes t else if opened then map_hashes t' else (false, t')

    -- The content is resized unless its chunks are already the right number.
    unfoldable pub fit_content : Tree h b → Bool × Tree h b
    unfolding open_hashes
    fit_content t =
        if leb d.reserved (u64 (sub64 t.sizec 1 * t.chunk_size))
          || ltb (u64 (t.sizec * t.chunk_size)) d.reserved
        then (if d.resize_fails t.size then (false, record t { size = 0 }) else open_hashes t)
        else open_hashes t

    unfoldable pub offer_peak_hash : Tree h b → Bin → Hash → Bool × Tree h b
    unfolding fit_content with_peak derive_root add_lengths
    offer_peak_hash t pos a =
        let peaks' = with_peak t.peaks pos a in
        if not (eq (derive_root peaks') t.root_hash)
        then (false, record t { peaks = peaks' })
        else (let sizec' = add_lengths t.sizec peaks' in
            let size' = if t.size == 0 then u64 (sizec' * t.chunk_size) else t.size in
            fit_content (record t {
              peaks = peaks';
              size = size';
              sizec = chunks size' t.chunk_size;
              complete = 0;
              completec = 0;
            }))
