-- ===== src/Swarm/Data.antt =====
-- `SwarmData`: its constructors, and its methods that do not need the manager.
use libswift.Base.{
  ℕ, Bool, true, false, not, ◌&&◌, Option, none, some, List, [], ◌∷◌, ◌++◌, ◌==◌, if◌then◌else◌,
}
use libswift.Swarm.State.{Text, RootHash, Direction, download, upload, Transfers, SwarmData, Os}

-- The first entry of a callback is dropped.
unfoldable pub erase_callback : ℕ → List (ℕ × ℕ) → List (ℕ × ℕ)
erase_callback cb [] = []
erase_callback cb ((c, agg) ∷ cs) = if c == cb then cs else (c, agg) ∷ erase_callback cb cs

-- `cachedMaxSpeeds_[ddir] = speed`
unfoldable pub set_speed : {A : Type 0} → Direction → A → (Direction → A) → Direction → A
set_speed download v speeds download = v
set_speed download v speeds upload = speeds upload
set_speed upload v speeds download = speeds download
set_speed upload v speeds upload = v

module _ {t : Transfers} where
  -- The constructor from the arguments of `AddSwarm`.
  unfoldable pub new_swarm :
      Os t → Text → RootHash → Text → Bool → ℕ → Bool → ℕ → Text → SwarmData t
  new_swarm w filename hash trackerurl force_check cipm zerostate chunk_size metadir =
      record w.garbage {
        id = none;
        root_hash = hash;
        active = false;
        latest_use = 0;
        ft = none;
        filename = filename;
        trackerurl = trackerurl;
        force_check_disk_vs_hash = force_check;
        cont_int_prot_method = cipm;
        chunk_size = chunk_size;
        zerostate = zerostate;
        cached_storage_filenames = [];
        cached_os_path_name = [];
        cached_callbacks = [];
        cached = false;
        metadir = metadir;
      }

  -- The copy constructor, which copies the arguments of the other one and nothing else.
  unfoldable pub copy_swarm : Os t → SwarmData t → SwarmData t
  unfolding new_swarm
  copy_swarm w d =
      new_swarm w d.filename d.root_hash d.trackerurl d.force_check_disk_vs_hash
        d.cont_int_prot_method d.zerostate d.chunk_size d.metadir

  -- `Touch`
  unfoldable pub touch : Os t → Bool → SwarmData t → Bool × SwarmData t
  touch w only_if_active d =
      if only_if_active && not d.active then (false, d) else (true, record d { latest_use = w.now })

  -- `GetTransfer`
  unfoldable pub get_transfer : Os t → Bool → SwarmData t → Option t.Transfer × SwarmData t
  unfolding touch
  get_transfer w touches d =
      if touches
      then (let (used, d') = touch w true d in if used then (d'.ft, d') else (none, d'))
      else if d.active
      then (d.ft, d)
      else (none, d)

  -- `SetMaxSpeed`
  unfoldable pub set_max_speed : Direction → t.Speed → SwarmData t → SwarmData t
  unfolding set_speed
  set_max_speed ddir speed d = if not (t.is_positive speed) then d else elim d.ft [
    | some f ↦
        if t.is_same (t.get_max_speed ddir f) speed
        then d
        else record d { ft = some (t.set_max_speed ddir speed f) }
    | none ↦
        if d.cached
        then record d { cached_max_speeds = set_speed ddir speed d.cached_max_speeds }
        else d
  ]

  -- `AddProgressCallback`
  unfoldable pub add_progress_callback : ℕ × ℕ → SwarmData t → SwarmData t
  add_progress_callback cb d = elim d.ft [
    | some f ↦ record d { ft = some (t.add_callback cb f) }
    | none ↦ if d.cached then record d { cached_callbacks = d.cached_callbacks ++ cb ∷ [] } else d
  ]

  -- `RemoveProgressCallback`
  unfoldable pub remove_progress_callback : ℕ → SwarmData t → SwarmData t
  unfolding erase_callback
  remove_progress_callback cb d = elim d.ft [
    | some f ↦ record d { ft = some (t.remove_callback cb f) }
    | none ↦
        if d.cached then record d { cached_callbacks = erase_callback cb d.cached_callbacks } else d
  ]

  -- `Size`, `IsComplete`, `Complete` and `OSPathName`: the answer of the transfer, or the one kept when
  -- the swarm was put to sleep.
  unfoldable pub size : SwarmData t → ℕ
  size d = elim d.ft [ some f ↦ t.size f | none ↦ if d.cached then d.cached_size else 0 ]

  unfoldable pub is_complete : SwarmData t → Bool
  is_complete d = elim d.ft [
    | some f ↦ t.is_complete f
    | none ↦ if d.cached then d.cached_is_complete else false
  ]

  unfoldable pub complete : SwarmData t → ℕ
  complete d = elim d.ft [
    | some f ↦ t.complete f
    | none ↦ if d.cached then d.cached_complete else 0
  ]

  unfoldable pub os_path_name : SwarmData t → Text
  os_path_name d = elim d.ft [
    | some f ↦ t.os_path_name f
    | none ↦ if d.cached then d.cached_os_path_name else []
  ]
