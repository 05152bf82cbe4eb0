-- ===== src/Swarm/Add.antt =====
-- `AddSwarm`.
use libswift.Base.{
  ℕ, suc, ◌-◌, Bool, true, false, not, ◌&&◌, ◌||◌, Option, none, some, List, [], ◌∷◌, ◌++◌, length,
  set, ltb, ◌==◌, if◌then◌else◌,
}
use libswift.Swarm.State.{
  Text, RootHash, Transfers, SwarmData, Os, UnusedIndex, Manager, bucket, put,
}
use libswift.Swarm.Data.{copy_swarm, new_swarm, touch}
use libswift.Swarm.Build.{build_swarm}
use libswift.Swarm.Activate.{activate_at}
use libswift.Swarm.Vector.{insert_at}
use libswift.Swarm.Search.{location, find_swarm}

-- `".mbinmap"` and `".mhash"`
abbrev pub mbinmap_suffix : Text
mbinmap_suffix = b'.' ∷ b'm' ∷ b'b' ∷ b'i' ∷ b'n' ∷ b'm' ∷ b'a' ∷ b'p' ∷ []

abbrev pub mhash_suffix : Text
mhash_suffix = b'.' ∷ b'm' ∷ b'h' ∷ b'a' ∷ b's' ∷ b'h' ∷ []

-- `SECONDS_UNTIL_INDEX_REUSE`, which the code takes from a time in microseconds.
abbrev pub index_reuse : ℕ
index_reuse = 120

unfoldable pub holds_size : (ℕ → Bool) → Option ℕ → Bool
holds_size test none = false
holds_size test (some n) = test n

-- `unusedIndices_.pop_front()`
unfoldable pub rest_of : List UnusedIndex → List UnusedIndex
rest_of [] = []
rest_of (u ∷ us) = us

module _ {t : Transfers} where
  -- `mhash_exists && content_size >=0 && ht->complete() == content_size`
  unfoldable pub is_good_on_disk : Os t → Text → Bool
  unfolding holds_size
  is_good_on_disk w filename =
      holds_size (ltb 0) (w.file_size (filename ++ mhash_suffix))
      && holds_size (λ n. (w.checkpoint_tree (filename ++ mbinmap_suffix)).1 == n)
          (w.file_size filename)

  -- The swarm made from a checkpoint, without its transfer.
  unfoldable pub sleeping : Os t → SwarmData t → SwarmData t
  sleeping w d =
      let tree = w.checkpoint_tree (d.filename ++ mbinmap_suffix) in
      record d {
        cached = true;
        root_hash = tree.0;
        cached_complete = tree.1;
        cached_size = tree.1;
        cached_is_complete = true;
        cached_os_path_name = d.filename;
        cached_storage_ready = true;
      }

  -- The new swarm before it is listed, and whether it is to be activated.
  unfoldable pub prepare_swarm : Os t → SwarmData t → Bool → SwarmData t × Bool
  unfolding copy_swarm is_good_on_disk sleeping
  prepare_swarm w given activate =
      let d = copy_swarm w given in
      if given.root_hash == 0 && not activate
      then (if is_good_on_disk w given.filename then (sleeping w d, activate) else (d, true))
      else (d, activate)

  -- The number of a new swarm: the oldest unused one, or a new one.
  unfoldable pub reuses : Os t → List UnusedIndex → Option ℕ
  reuses w [] = none
  reuses w (u ∷ us) = if ltb u.since (w.now - index_reuse) then some u.index else none

  -- The transfer hears of the number, and asks the tracker.
  unfoldable pub numbered : ℕ → SwarmData t → SwarmData t
  numbered id d =
      let d1 = record d { id = some id } in
      elim d.ft [
        | none ↦ d1
        | some f ↦ record d1 { ft = some (t.connect_to_tracker (t.set_td (some id) f)) }
      ]

  -- The new swarm gets an address, its place among the known swarms, and a number.
  unfoldable pub list_swarm : Os t → SwarmData t → Manager t → Manager t
  unfolding location insert_at reuses rest_of numbered
  list_swarm w d m =
      let b = bucket d.root_hash in
      let known = insert_at (location m d.root_hash) m.next (m.known_swarms b) in
      let m1 = record m {
        alive = λ p. p == m.next || m.alive p;
        next = suc m.next;
        known_swarms = λ i. if i == b then known else m.known_swarms i;
      } in
      elim (reuses w m.unused_indices) [
        | some id ↦ record (put m.next (numbered id d) m1) {
          swarm_list = set m.swarm_list id (some m.next);
          unused_indices = rest_of m.unused_indices;
        }
        | none ↦ record (put m.next (numbered (length m.swarm_list) d) m1) {
          swarm_list = m.swarm_list ++ some m.next ∷ [];
        }
      ]

  -- What follows `ActivateSwarm(newSwarm)`, from the state that it leaves: the swarm loses a transfer
  -- that could not be activated, and is touched otherwise.
  unfoldable pub after_activation : Os t → ℕ → Manager t × Option ℕ → Manager t
  unfolding touch
  after_activation w p (m, some q) = put p (touch w false (m.swarm p)).1 m
  after_activation w p (m, none) = elim (m.swarm p).ft [
    | none ↦ put p (touch w false (m.swarm p)).1 m
    | some f ↦ put p (record (m.swarm p) { ft = none }) m
  ]

  -- `if (activate)`: the new swarm at `p` is activated.
  unfoldable pub activate_new : Os t → ℕ → Manager t → Manager t
  unfolding activate_at after_activation
  activate_new w p m = after_activation w p (activate_at w p m)

  -- From the search for duplicates on.
  unfoldable pub enter_swarm : Os t → SwarmData t → Bool → Manager t → Manager t × Option ℕ
  unfolding find_swarm list_swarm activate_new
  enter_swarm w d activate m = elim (find_swarm m d.root_hash) [
    | some p ↦ (m, some p)
    | none ↦
        let m1 = list_swarm w d m in
        (if activate then activate_new w m.next m1 else m1, some m.next)
  ]

  -- A swarm without a root hash is built first, and not entered if that makes no transfer.
  unfoldable pub add_prepared : Os t → SwarmData t × Bool → Manager t → Manager t × Option ℕ
  unfolding build_swarm enter_swarm
  add_prepared w (d, activate) m =
      let built = build_swarm w d in
      if d.root_hash == 0
      then elim built.ft [ none ↦ (m, none) | some f ↦ enter_swarm w built activate m ]
      else enter_swarm w d activate m

  -- `AddSwarm(const SwarmData& swarm, bool activate)`
  unfoldable pub add_swarm : Os t → SwarmData t → Bool → Manager t → Manager t × Option ℕ
  unfolding prepare_swarm add_prepared
  add_swarm w given activate m = add_prepared w (prepare_swarm w given activate) m

  -- `AddSwarm(const std::string filename, ...)`
  unfoldable pub add_new_swarm :
      Os t
      → Text
      → RootHash
      → Text
      → Bool
      → ℕ
      → Bool
      → Bool
      → ℕ
      → Text
      → Manager t
      → Manager t × Option ℕ
  unfolding new_swarm add_swarm
  add_new_swarm w filename hash trackerurl force_check cipm zerostate activate chunk_size metadir
        m =
      add_swarm w
        (new_swarm w filename hash trackerurl force_check cipm zerostate chunk_size metadir)
        activate m
