-- ===== src/Swarm/Remove.antt =====
-- `RemoveSwarm`.
use libswift.Base.{
  ℕ, ◌-◌, Bool, false, ◌&&◌, Option, none, some, List, [], ◌∷◌, ◌++◌, set, ◌==◌, if◌then◌else◌,
}
use libswift.Swarm.State.{Text, RootHash, Transfers, SwarmData, Os, Manager, bucket, root_at, put}
use libswift.Swarm.Data.{os_path_name}
use libswift.Swarm.Add.{mbinmap_suffix, mhash_suffix}
use libswift.Swarm.Vector.{remove_at, index_from, swap_out}
use libswift.Swarm.Search.{location, get_swarm_data}

module _ {t : Transfers} where
  -- The removal from the active swarms.
  unfoldable pub drop_active : ℕ → Manager t → Manager t
  unfolding index_from swap_out
  drop_active p m = elim (index_from 0 p m.active_swarms) [
    | none ↦ m
    | some loc ↦ record (put p (record (m.swarm p) { active = false }) m) {
      active_swarms = swap_out loc m.active_swarms;
      active_swarm_count = m.active_swarm_count - 1;
    }
  ]

  -- `swarmList_[ui.index] = NULL`, and the number is kept for later.
  unfoldable pub free_index : Os t → Option ℕ → Manager t → Manager t
  free_index w none m = m
  free_index w (some id) m = record m {
    swarm_list = set m.swarm_list id none;
    unused_indices = m.unused_indices ++ record { index = id; since = w.now } ∷ [];
  }

  -- The files to delete, of a set that the model keeps as a list.
  unfoldable pub files_of : Bool → Bool → SwarmData t → List Text
  unfolding os_path_name
  files_of remove_state remove_content d =
      let path = os_path_name d in
      let content = if remove_content then path ∷ [] else [] in
      let state =
        if remove_state then (path ++ mhash_suffix) ∷ (path ++ mbinmap_suffix) ∷ [] else [] in
      let ready : Bool = elim d.ft [ some f ↦ t.is_ready f | none ↦ d.cached_storage_ready ] in
      let stored : List Text = elim d.ft [
        | some f ↦ t.storage_files f
        | none ↦ d.cached_storage_filenames
      ] in
      content ++ state ++ (if remove_content && ready then stored else [])

  -- The swarm that `RemoveSwarm` has picked leaves the lists, and is deleted.
  unfoldable pub remove_at_address : Os t → RootHash → ℕ → Manager t → Manager t
  unfolding location remove_at drop_active free_index
  remove_at_address w hash p m =
      let b = bucket hash in
      let m1 = drop_active p m in
      let rest = remove_at (location m hash) (m.known_swarms b) in
      let m2 =
        if root_at m p == hash
        then record m1 { known_swarms = λ i. if i == b then rest else m.known_swarms i }
        else m1 in
      let m3 = free_index w (m.swarm p).id m2 in
      record m3 { alive = λ q. if q == p then false else m.alive q }

  -- `RemoveSwarm`, with the files that it deletes.
  unfoldable pub remove_swarm : Os t → RootHash → Bool → Bool → Manager t → Manager t × List Text
  unfolding get_swarm_data remove_at_address files_of
  remove_swarm w hash remove_state remove_content m = elim (get_swarm_data m hash) [
    | none ↦ (m, [])
    | some p ↦ (remove_at_address w hash p m, files_of remove_state remove_content (m.swarm p))
  ]
