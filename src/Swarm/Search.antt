-- ===== src/Swarm/Search.antt =====
-- Finding a swarm: `GetSwarmLocation`, `GetSwarmData`, the two `FindSwarm`, `GetTransferDescriptors`.
use libswift.Base.{
  ℕ, zero, suc, ◌+◌, ◌/◌, Option, none, some, List, [], ◌∷◌, length, get_or, map, ltb, ◌==◌,
  if◌then◌else◌,
}
use libswift.Base.Int.{ℤ, pos, negsuc}
use libswift.Swarm.State.{RootHash, Transfers, Manager, root_at, bucket}
use libswift.Swarm.Vector.{get_elem?}

-- The loop of `GetSwarmLocation`, over the root hashes of the list.
unfoldable pub location_loop : ℕ → List RootHash → RootHash → ℕ → ℕ → ℕ
location_loop zero hashes target low high = low
location_loop (suc fuel) hashes target low high =
    let mid = (low + high) / 2 in
    let hash = get_or hashes mid 0 in
    let above = location_loop fuel hashes target (mid + 1) high in
    let below = location_loop fuel hashes target low mid in
    if ltb low high
    then (if ltb hash target then above else if ltb target hash then below else mid)
    else low

-- Each round halves what is left.
unfoldable pub get_swarm_location : List RootHash → RootHash → ℕ
unfolding location_loop
get_swarm_location hashes target = location_loop (length hashes) hashes target 0 (length hashes)

-- The first location whose hash is not below the target.
unfoldable pub lower_bound : List RootHash → RootHash → ℕ
lower_bound [] target = 0
lower_bound (hash ∷ hashes) target = if ltb hash target then suc (lower_bound hashes target) else 0

-- The places of a list that hold something, from the place `i` on.
unfoldable pub taken_from : {A : Type 0} → ℕ → List (Option A) → List ℕ
taken_from i [] = []
taken_from i (none ∷ xs) = taken_from (suc i) xs
taken_from i (some x ∷ xs) = i ∷ taken_from (suc i) xs

-- `FindSwarm(int id)`
unfoldable pub slot_at : List (Option ℕ) → ℕ → Option ℕ
slot_at [] id = none
slot_at (p ∷ ps) zero = p
slot_at (p ∷ ps) (suc id) = slot_at ps id

module _ {t : Transfers} where
  -- The list `knownSwarms_[i]`, and where the hash is in it.
  unfoldable pub location : Manager t → RootHash → ℕ
  unfolding get_swarm_location
  location m hash = get_swarm_location (map (root_at m) (m.known_swarms (bucket hash))) hash

  -- `GetSwarmData`
  unfoldable pub get_swarm_data : Manager t → RootHash → Option ℕ
  unfolding location get_elem?
  get_swarm_data m hash = get_elem? (m.known_swarms (bucket hash)) (location m hash)

  -- `FindSwarm(const Sha1Hash&)`
  unfoldable pub find_swarm : Manager t → RootHash → Option ℕ
  unfolding get_swarm_data
  find_swarm m hash = elim (get_swarm_data m hash) [
    | none ↦ none
    | some p ↦ if root_at m p == hash then some p else none
  ]

  -- `FindSwarm(int)`
  unfoldable pub find_id : Manager t → ℤ → Option ℕ
  unfolding slot_at
  find_id m (negsuc n) = none
  find_id m (pos id) = slot_at m.swarm_list id

  -- `GetTransferDescriptors`
  unfoldable pub get_transfer_descriptors : Manager t → List ℕ
  unfolding taken_from
  get_transfer_descriptors m = taken_from 0 m.swarm_list
