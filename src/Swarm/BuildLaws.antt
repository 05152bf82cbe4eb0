-- ===== src/Swarm/BuildLaws.antt =====
-- What building, waking and putting to sleep leave of a swarm: its number, its root hash and whether it
-- is active.
use libswift.Base.{
  ℕ, ◌≡◌, ◌≢◌, refl, ◌∙◌, arith, Bool, true, false, none, some, List, [], ◌∷◌, ◌==◌, ◌⊎◌, inl, inr,
  Bool-cases, ◌&&◌,
}
use libswift.Swarm.State.{Direction, download, upload, Transfers, SwarmData, Os}
use libswift.Swarm.Data.{set_max_speed, add_progress_callback}
use libswift.Swarm.Build.{
  is_zero, works, add_callbacks, restore, named, woken, unchecked, contact_tracker, settle,
  build_swarm,
}
use libswift.Swarm.Activate.{put_to_sleep, deactivated}

module _ {t : Transfers} where
  abbrev pub IsSame : SwarmData t → SwarmData t → Type 0
  IsSame d e = (e.id ≡ d.id) × (e.root_hash ≡ d.root_hash) × (e.active ≡ d.active)

  IsSame-trans : (d e f : SwarmData t) → IsSame d e → IsSame e f → IsSame d f
  IsSame-trans d e f a b = (b.0 ∙ a.0, b.1 ∙ a.1, b.2 ∙ a.2)

  set_max_speed-IsSame :
      (ddir : Direction) (v : t.Speed) (d : SwarmData t) → IsSame d (set_max_speed ddir v d)
  unfolding set_max_speed
  set_max_speed-IsSame ddir v d = ground arith

  add_callbacks-IsSame : (cbs : List (ℕ × ℕ)) (d : SwarmData t) → IsSame d (add_callbacks cbs d)
  unfolding add_callbacks
  add_callbacks-IsSame [] d = (refl, refl, refl)
  add_callbacks-IsSame (cb ∷ cbs) d =
      let one : IsSame d (add_progress_callback cb d) =
        unfold add_progress_callback in ground arith in
      IsSame-trans d (add_progress_callback cb d) (add_callbacks cbs (add_progress_callback cb d))
        one (add_callbacks-IsSame cbs (add_progress_callback cb d))

  restore-IsSame : (d : SwarmData t) → IsSame d (restore d)
  unfolding restore
  restore-IsSame d =
      let d0 = record d { cached = false } in
      let d1 = set_max_speed download (d.cached_max_speeds download) d0 in
      let d2 = set_max_speed upload (d1.cached_max_speeds upload) d1 in
      let d3 = add_callbacks d2.cached_callbacks d2 in
      IsSame-trans d d2 d3
        (IsSame-trans d d1 d2 (set_max_speed-IsSame download (d.cached_max_speeds download) d0)
          (set_max_speed-IsSame upload (d1.cached_max_speeds upload) d1))
        (add_callbacks-IsSame d2.cached_callbacks d2)

  contact_tracker-IsSame : (d : SwarmData t) → IsSame d (contact_tracker d)
  unfolding contact_tracker
  contact_tracker-IsSame d = ground arith

  named-IsSame : (f : t.Transfer) (d : SwarmData t) → d.root_hash ≢ 0 → IsSame d (named f d)
  unfolding named
  named-IsSame f d nz = ground arith

  woken-IsSame : (d : SwarmData t) → IsSame d (woken d)
  unfolding woken
  woken-IsSame d = ground (arith, restore-IsSame d)

  unchecked-IsSame : (d : SwarmData t) → IsSame d (unchecked d)
  unfolding unchecked
  unchecked-IsSame d = (refl, refl, refl)

  settle-named : (f : t.Transfer) (d : SwarmData t) → IsSame (named f d) (settle f d)
  unfolding settle
  settle-named f d =
      let d1 = named f d in
      let d2 = woken d1 in
      let d3 = unchecked d2 in
      IsSame-trans d1 d3 (contact_tracker d3)
        (IsSame-trans d1 d2 d3 (woken-IsSame d1) (unchecked-IsSame d2)) (contact_tracker-IsSame d3)

  settle-IsSame : (f : t.Transfer) (d : SwarmData t) → d.root_hash ≢ 0 → IsSame d (settle f d)
  settle-IsSame f d nz =
      IsSame-trans d (named f d) (settle f d) (named-IsSame f d nz) (settle-named f d)

  -- The transfer that `BuildSwarm` makes.
  abbrev pub made : Os t → SwarmData t → t.Transfer
  made w d =
      w.open_transfer d.id d.filename d.root_hash d.force_check_disk_vs_hash d.cont_int_prot_method
        d.chunk_size d.zerostate d.metadir

  named-zero :
      (f : t.Transfer) (d : SwarmData t)
      → d.root_hash ≡ 0
      → ((named f d).root_hash ≡ t.swarm_id f) × ((named f d).active ≡ d.active)
  unfolding named
  named-zero f d z = ground arith

  -- A swarm without a root hash takes that of its transfer, or is left alone if its file is empty.
  pub build_swarm-zero :
      (w : Os t) (d : SwarmData t)
      → d.root_hash ≡ 0
      → t.is_operational (made w d) ≡ true
      → (build_swarm w d ≡ d)
        ⊎ (((build_swarm w d).root_hash ≡ t.swarm_id (made w d))
            × ((build_swarm w d).active ≡ d.active))
  unfolding build_swarm
  build_swarm-zero w d z works =
      let f = made w d in
      let d1 = record d { ft = some f } in
      let settled = settle-named f d1 in
      let named1 = named-zero f d1 z in
      let result : ((settle f d1).root_hash ≡ t.swarm_id f) × ((settle f d1).active ≡ d.active) =
        (settled.1 ∙ named1.0, settled.2 ∙ named1.1) in
      elim (Bool-cases (d.root_hash == 0 && is_zero (w.file_size d.filename))) [
        | inl e ↦ inl (rw e)
        | inr e ↦ inr (ground (arith, e, works, result))
      ]

  -- A swarm that has a root hash keeps it.
  pub build_swarm-IsSame :
      (w : Os t) (d : SwarmData t) → d.root_hash ≢ 0 → IsSame d (build_swarm w d)
  unfolding build_swarm
  build_swarm-IsSame w d nz =
      let f = made w d in
      let same : IsSame d (settle f (record d { ft = some f })) =
        settle-IsSame f (record d { ft = some f }) nz in
      ground (arith, same)

  pub deactivated-fields :
      (failed : Bool) (d : SwarmData t)
      → ((deactivated failed d).id ≡ d.id)
        × ((deactivated failed d).root_hash ≡ d.root_hash)
        × ((deactivated failed d).active ≡ false)
        × ((deactivated failed d).ft ≡ none)
  unfolding deactivated put_to_sleep
  deactivated-fields failed d = ground arith
