-- ===== src/Swarm/Build.antt =====
-- `BuildSwarm`: the transfer of a swarm is made, and gets back what the swarm kept while asleep.
use libswift.Base.{
  ℕ, Bool, true, false, not, ◌&&◌, Option, none, some, List, [], ◌∷◌, ◌==◌, if◌then◌else◌,
}
use libswift.Swarm.State.{Text, download, upload, Transfers, SwarmData, Os}
use libswift.Swarm.Data.{set_max_speed, add_progress_callback}

-- `file_size_by_path_utf8(...) == 0`
unfoldable pub is_zero : Option ℕ → Bool
is_zero none = false
is_zero (some n) = n == 0

unfoldable pub is_empty : Text → Bool
is_empty [] = true
is_empty (c ∷ cs) = false

unfoldable pub is_some : {A : Type 0} → Option A → Bool
is_some none = false
is_some (some a) = true

module _ {t : Transfers} where
  -- `!swarm->ft_ || !swarm->ft_->IsOperational()`, negated.
  unfoldable pub works : SwarmData t → Bool
  works d = elim d.ft [ none ↦ false | some f ↦ t.is_operational f ]

  -- The loop over `cachedCallbacks_`.
  unfoldable pub add_callbacks : List (ℕ × ℕ) → SwarmData t → SwarmData t
  unfolding add_progress_callback
  add_callbacks [] d = d
  add_callbacks (cb ∷ cbs) d = add_callbacks cbs (add_progress_callback cb d)

  -- `if (swarm->cached_)`: what the swarm kept while asleep is given to the new transfer.
  unfoldable pub restore : SwarmData t → SwarmData t
  unfolding set_max_speed add_callbacks
  restore d =
      let d1 =
        set_max_speed download (d.cached_max_speeds download) (record d { cached = false }) in
      let d2 = set_max_speed upload (d1.cached_max_speeds upload) d1 in
      let d3 = add_callbacks d2.cached_callbacks d2 in
      record d3 { cached_storage_filenames = []; cached_callbacks = []; cached_os_path_name = [] }

  -- The tracker is asked once the swarm has a number.
  unfoldable pub contact_tracker : SwarmData t → SwarmData t
  unfolding is_empty is_some
  contact_tracker d =
      if not (is_empty d.trackerurl) && is_some d.id
      then elim d.ft [
        | none ↦ d
        | some f ↦ record d { ft = some (t.connect_to_tracker (t.set_tracker d.trackerurl f)) }
      ]
      else d

  -- A swarm without a root hash takes that of its transfer.
  unfoldable pub named : t.Transfer → SwarmData t → SwarmData t
  named f d = if d.root_hash == 0 then record d { root_hash = t.swarm_id f } else d

  unfoldable pub woken : SwarmData t → SwarmData t
  unfolding restore
  woken d = if d.cached then restore d else d

  -- `swarm->forceCheckDiskVSHash_ = false`
  unfoldable pub unchecked : SwarmData t → SwarmData t
  unchecked d = record d { force_check_disk_vs_hash = false }

  -- The rest of `BuildSwarm`, from the test of `rootHash_` on.
  unfoldable pub settle : t.Transfer → SwarmData t → SwarmData t
  unfolding named woken unchecked contact_tracker
  settle f d = contact_tracker (unchecked (woken (named f d)))

  -- `BuildSwarm`
  unfoldable pub build_swarm : Os t → SwarmData t → SwarmData t
  unfolding settle is_zero
  build_swarm w d =
      if d.root_hash == 0 && is_zero (w.file_size d.filename)
      then d
      else (let f =
            w.open_transfer d.id d.filename d.root_hash d.force_check_disk_vs_hash
              d.cont_int_prot_method d.chunk_size d.zerostate d.metadir in
          let d1 = record d { ft = some f } in if t.is_operational f then settle f d1 else d1)
