-- ===== src/Tests/Swarms.antt =====
-- The theorems about the swarm manager, applied to a manager of two swarms. A transfer is its root hash.
use libswift.Base.{
  ℕ, ◌+◌, ◌*◌, ◌≡◌, ◌≢◌, ◌↔◌, refl, arith, true, false, none, some, [], ◌∷◌, ltb, ◌==◌,
  if◌then◌else◌,
}
use mathlib.Core.Option
use libswift.Swarm.State.{Transfers, SwarmData, Os, Manager, new_manager, root_at}
use libswift.Swarm.Search.{get_swarm_location, lower_bound, find_swarm, get_swarm_data}
use libswift.Swarm.Activate.{deactivate_oldest, activate_swarm, deactivate_idle_swarms}
use libswift.Swarm.Add.{add_swarm}
use libswift.Swarm.Remove.{remove_swarm}
use libswift.Swarm.Location.{get_swarm_location-eq-lower_bound}
use libswift.Swarm.Find.{find_swarm_iff, activate_swarm-IsActivated}
use libswift.Swarm.Wake.{IsActivated}
use libswift.Swarm.Success.{CanActivate}
use libswift.Swarm.Lru.{IsLru, deactivate_oldest-IsLru}
use libswift.Swarm.Idle.{Rested, deactivate_idle_swarms-rests}
use libswift.Swarm.AddLaws.{IsAdded}
use libswift.Swarm.AddNew.{CanSeed, add_swarm-IsAdded}
use libswift.Swarm.RemoveLaws.{IsRemoved, remove_swarm-IsRemoved}
use libswift.Swarm.Unknown.{remove_swarm-unknown}
use libswift.Swarm.Runs.{start, step, add, Reached, Reached-IsConsistent}
use libswift.Swarm.Invariant.{IsConsistent}

abbrev hashes : Transfers
hashes = record {
  Transfer = ℕ;
  Speed = ℕ;
  is_positive = ltb 0;
  is_same = λ a b. a == b;
  is_operational = λ f. true;
  is_zero_state = λ f. false;
  swarm_id = λ f. f;
  get_max_speed = λ ddir f. 100;
  set_max_speed = λ ddir speed f. f;
  callbacks = λ f. [];
  add_callback = λ cb f. f;
  remove_callback = λ cb f. f;
  size = λ f. 1024;
  is_complete = λ f. true;
  complete = λ f. 1024;
  seq_complete = λ offset f. 1024;
  os_path_name = λ f. f ∷ [];
  is_ready = λ f. true;
  storage_files = λ f. [];
  set_td = λ id f. f;
  set_tracker = λ url f. f;
  connect_to_tracker = λ f. f;
}

abbrev zeroed : SwarmData hashes
zeroed = record {
  id = none;
  root_hash = 0;
  active = false;
  latest_use = 0;
  ft = none;
  filename = [];
  trackerurl = [];
  force_check_disk_vs_hash = false;
  cont_int_prot_method = 1;
  chunk_size = 1024;
  zerostate = false;
  cached_max_speeds = λ ddir. 0;
  cached_storage_ready = false;
  cached_storage_filenames = [];
  cached_size = 0;
  cached_is_complete = false;
  cached_complete = 0;
  cached_os_path_name = [];
  cached_callbacks = [];
  cached_seq_complete = 0;
  cached = false;
  metadir = [];
}

-- The system at a time, in seconds.
abbrev at_second : ℕ → Os hashes
at_second s = record {
  now = s * 1000000;
  file_size = λ name. some 1024;
  checkpoint_tree = λ name. (9, 1024);
  open_transfer =
      λ id name hash force cipm chunk_size zerostate metadir. if hash == 0 then 7 else hash;
  can_save = λ f. true;
  garbage = zeroed;
}

abbrev with_hash : ℕ → SwarmData hashes
with_hash h = record zeroed { root_hash = h; filename = h ∷ [] }

abbrev empty : Manager hashes
empty = new_manager (λ p. zeroed)

-- One swarm with the hash 5 and one with the hash 20, in the same bucket, both active.
abbrev one : Manager hashes
one = (add_swarm (at_second 1000) (with_hash 5) true empty).0

abbrev two : Manager hashes
two = (add_swarm (at_second 1010) (with_hash 20) true one).0

two-Reached : Reached two
two-Reached =
    step (step (start (λ p. zeroed)) (add (at_second 1000) (with_hash 5) true empty (omega arith)))
      (add (at_second 1010) (with_hash 20) true one (omega arith))

two-IsConsistent : IsConsistent two
two-IsConsistent = Reached-IsConsistent two-Reached

two_alive : two.alive 1 ≡ true
unfolding add_swarm new_manager
two_alive = refl

two_active : two.active_swarm_count ≡ 2
unfolding add_swarm new_manager
two_active = refl

-- A hash that no swarm has, below the first one of its bucket.
three_data : get_swarm_data two 3 ≡ some 0
unfolding add_swarm new_manager get_swarm_data
three_data = refl

three_unknown : find_swarm two 3 ≡ none
unfolding add_swarm new_manager find_swarm
three_unknown = refl

three_absent : (q : ℕ) → two.alive q ≡ true → root_at two q ≢ 3
three_absent q a e =
    let found = (find_swarm_iff two two-IsConsistent.listed 3 q).1 (a, e) in
    cc (found, three_unknown)

seeds : CanSeed (at_second 1020)
seeds = record { works = λ d. refl; named = λ d. ground arith; saved = λ name. omega arith }

Reached-IsConsistent_example : IsConsistent two
Reached-IsConsistent_example = Reached-IsConsistent two-Reached

add_swarm-IsAdded_example : IsAdded 20 two (add_swarm (at_second 1020) (with_hash 20) false two)
add_swarm-IsAdded_example =
    add_swarm-IsAdded (at_second 1020) (with_hash 20) false two two-IsConsistent (omega arith)

remove_swarm-IsRemoved_example :
    IsRemoved 1 two (remove_swarm (at_second 1020) (root_at two 1) true false two).0
remove_swarm-IsRemoved_example =
    remove_swarm-IsRemoved (at_second 1020) true false 1 two two-IsConsistent two_alive

remove_swarm-unknown_example :
    (two.alive 0 ≡ true)
    × ((remove_swarm (at_second 1020) 3 false false two).0.alive 0 ≡ false)
    × (find_swarm (remove_swarm (at_second 1020) 3 false false two).0 (root_at two 0) ≡ some 0)
remove_swarm-unknown_example =
    remove_swarm-unknown (at_second 1020) 3 false false 0 two two-IsConsistent three_absent
      three_data

activate_swarm-IsActivated_example :
    IsActivated 1 two (activate_swarm (at_second 1020) (root_at two 1) two)
    × (((activate_swarm (at_second 1020) (root_at two 1) two).1 ≡ some 1)
        ↔ CanActivate (at_second 1020) 1 two)
activate_swarm-IsActivated_example =
    activate_swarm-IsActivated (at_second 1020) 1 two two-IsConsistent two_alive

find_swarm_iff_example :
    (find_swarm two 20 ≡ some 1) ↔ ((two.alive 1 ≡ true) × (root_at two 1 ≡ 20))
find_swarm_iff_example = find_swarm_iff two two-IsConsistent.listed 20 1

deactivate_idle_swarms-rests_example :
    (m' : Manager hashes) × (deactivate_idle_swarms (λ k. at_second (1305 + k)) two ≡ some m')
    × Rested (λ k. at_second (1305 + k)) two m'
deactivate_idle_swarms-rests_example =
    deactivate_idle_swarms-rests (λ k. at_second (1305 + k)) two two-IsConsistent

get_swarm_location-eq-lower_bound_example :
    get_swarm_location (5 ∷ 20 ∷ 36 ∷ []) 21 ≡ lower_bound (5 ∷ 20 ∷ 36 ∷ []) 21
get_swarm_location-eq-lower_bound_example =
    get_swarm_location-eq-lower_bound (5 ∷ 20 ∷ 36 ∷ []) 21 (omega arith)

-- At 1305 seconds the first swarm has been idle for 305 seconds, the second one for 295.
idle_one :
    Option.map (λ m. m.active_swarms) (deactivate_idle_swarms (λ k. at_second 1305) two)
    ≡ some (1 ∷ [])
unfolding deactivate_idle_swarms add_swarm new_manager
idle_one = refl

deactivate_oldest-IsLru_example :
    IsLru (at_second 1305) two (deactivate_oldest (at_second 1305) two)
deactivate_oldest-IsLru_example = deactivate_oldest-IsLru (at_second 1305) two two-IsConsistent
