-- ===== src/Swarm/Activate.antt =====
-- The activation and deactivation of swarms.
use libswift.Base.{
  ℕ, zero, suc, ◌+◌, ◌-◌, ◌*◌, Bool, true, false, not, ◌&&◌, ◌||◌, Option, none, some, List, [],
  ◌∷◌, ◌++◌, ltb, leb, ◌==◌, if◌then◌else◌,
}
use libswift.Base.Int.{ℤ, pos, negsuc}
use libswift.Swarm.State.{RootHash, Transfers, SwarmData, Os, Manager, put}
use libswift.Swarm.Data.{get_transfer, size, is_complete, complete, os_path_name}
use libswift.Swarm.Build.{works, build_swarm}
use libswift.Swarm.Vector.{index_from, swap_out}
use libswift.Swarm.Search.{slot_at, find_swarm}

-- `SECONDS_UNUSED_UNTIL_SWARM_MAY_BE_DEACTIVATED*TINT_SEC`, in microseconds.
abbrev pub idle_time : ℕ
idle_time = 300 * 1000000

module _ {t : Transfers} where
  -- `swift::Checkpoint(td) == -1`
  unfoldable pub checkpoint_fails : Os t → Manager t → Option ℕ → Bool
  unfolding slot_at get_transfer
  checkpoint_fails w m none = true
  checkpoint_fails w m (some id) = elim (slot_at m.swarm_list id) [
    | none ↦ true
    | some p ↦ elim (get_transfer w false (m.swarm p)).0 [
      | none ↦ true
      | some f ↦ t.is_zero_state f || not (w.can_save f)
    ]
  ]

  -- What `DeactivateSwarm` keeps of the transfer that it deletes.
  unfoldable pub put_to_sleep : SwarmData t → SwarmData t
  unfolding size is_complete complete os_path_name
  put_to_sleep d = elim d.ft [
    | none ↦ d
    | some f ↦ record d {
      cached_max_speeds = λ ddir. t.get_max_speed ddir f;
      cached_storage_ready = t.is_ready f;
      cached_storage_filenames =
          if t.is_ready f
          then d.cached_storage_filenames ++ t.storage_files f
          else d.cached_storage_filenames;
      cached_size = size d;
      cached_is_complete = is_complete d;
      cached_complete = complete d;
      cached_seq_complete = t.seq_complete 0 f;
      cached_os_path_name = os_path_name d;
      cached_callbacks = d.cached_callbacks ++ t.callbacks f;
      cached = true;
      ft = none;
    }
  ]

  -- The swarm that `DeactivateSwarm(swarm, activeLoc)` leaves.
  unfoldable pub deactivated : Bool → SwarmData t → SwarmData t
  unfolding put_to_sleep
  deactivated failed d =
      let checked =
        if failed && not d.zerostate then record d { force_check_disk_vs_hash = true } else d in
      put_to_sleep (record checked { active = false })

  -- `DeactivateSwarm(SwarmData* swarm, int activeLoc)`
  unfoldable pub deactivate_at : Os t → ℕ → ℕ → Manager t → Manager t
  unfolding deactivated checkpoint_fails swap_out
  deactivate_at w p loc m =
      let d = m.swarm p in
      record (put p (deactivated (checkpoint_fails w m d.id) d) m) {
        active_swarms = swap_out loc m.active_swarms;
        active_swarm_count = m.active_swarm_count - 1;
      }

  -- `DeactivateSwarm(const Sha1Hash& rootHash)`
  unfoldable pub deactivate_swarm : Os t → RootHash → Manager t → Manager t
  unfolding find_swarm index_from deactivate_at
  deactivate_swarm w hash m = elim (find_swarm m hash) [
    | none ↦ m
    | some p ↦ elim (index_from 0 p m.active_swarms) [
      | none ↦ m
      | some loc ↦ deactivate_at w p loc m
    ]
  ]

  -- `oldest` is the better of the swarms before the place `i`, with its place.
  unfoldable pub older : (ℕ → SwarmData t) → ℕ → ℕ → ℕ → Option (ℕ × ℕ) → Option (ℕ × ℕ)
  older swarm old i p none = if ltb (swarm p).latest_use old then some (p, i) else none
  older swarm old i p (some (q, loc)) =
      if ltb (swarm p).latest_use old && ltb (swarm p).latest_use (swarm q).latest_use
      then some (p, i)
      else some (q, loc)

  unfoldable pub find_oldest : (ℕ → SwarmData t) → ℕ → ℕ → List ℕ → Option (ℕ × ℕ) → Option (ℕ × ℕ)
  unfolding older
  find_oldest swarm old i [] oldest = oldest
  find_oldest swarm old i (p ∷ ps) oldest =
      find_oldest swarm old (suc i) ps (older swarm old i p oldest)

  -- `DeactivateSwarm()`: the active swarm that has been unused for longest, if it may sleep.
  unfoldable pub deactivate_oldest : Os t → Manager t → Bool × Manager t
  unfolding find_oldest deactivate_at
  deactivate_oldest w m = elim (find_oldest m.swarm (w.now - idle_time) 0 m.active_swarms none) [
    | none ↦ (false, m)
    | some (p, loc) ↦ (true, deactivate_at w p loc m)
  ]

  -- The loop of `DeactivateIdleSwarms`, which reads the clock anew in each round; `none` means that the
  -- fuel ran out.
  unfoldable pub idle_loop : ℕ → (ℕ → Os t) → Manager t → Option (Manager t)
  unfolding deactivate_oldest
  idle_loop zero w m = none
  idle_loop (suc fuel) w m =
      let (done, m1) = deactivate_oldest (w 0) m in
      let rest = idle_loop fuel (λ k. w (suc k)) m1 in if done then rest else some m1

  -- `DeactivateIdleSwarms`
  unfoldable pub deactivate_idle_swarms : (ℕ → Os t) → Manager t → Option (Manager t)
  unfolding idle_loop
  deactivate_idle_swarms w m = idle_loop (suc m.active_swarm_count) w m

  -- The loop that puts swarms to sleep until at most `limit` are active. Each round takes one off the
  -- count, which is fuel enough.
  unfoldable pub shrink_loop : ℕ → (ℕ → Os t) → ℕ → Manager t → Manager t
  unfolding deactivate_oldest
  shrink_loop zero w limit m = m
  shrink_loop (suc fuel) w limit m =
      let (done, m1) = deactivate_oldest (w 0) m in
      let rest = shrink_loop fuel (λ k. w (suc k)) limit m1 in
      if ltb limit m.active_swarm_count then (if done then rest else m1) else m

  -- `SetMaximumActiveSwarms`
  unfoldable pub set_maximum_active_swarms : (ℕ → Os t) → ℤ → Manager t → Manager t
  unfolding shrink_loop
  set_maximum_active_swarms w (negsuc n) m = m
  set_maximum_active_swarms w (pos n) m =
      if n == 0
      then m
      else (let m1 = shrink_loop m.active_swarm_count w n m in
          record m1 { max_active_swarms = n; timer = m1.timer || ltb n m1.active_swarm_count })

  -- `CheckSwarmsToBeRemoved`, which the timer calls: it is pending no more.
  unfoldable pub check_swarms_to_be_removed : (ℕ → Os t) → Manager t → Manager t
  unfolding shrink_loop
  check_swarms_to_be_removed w m =
      let m1 = shrink_loop m.active_swarm_count w m.max_active_swarms m in
      record m1 { timer = ltb m1.max_active_swarms m1.active_swarm_count }

  -- The end of `ActivateSwarm(SwarmData* sd)`, once there is room.
  unfoldable pub start_swarm : Os t → ℕ → Manager t → Manager t × Option ℕ
  unfolding works build_swarm
  start_swarm w p m =
      let d = m.swarm p in
      let d1 = if works d then d else build_swarm w (record d { ft = none }) in
      if works d1
      then (
        record (put p (record d1 { active = true; latest_use = 0 }) m) {
          active_swarm_count = m.active_swarm_count + 1;
          active_swarms = m.active_swarms ++ p ∷ [];
        },
        some p,
      )
      else (put p (record d1 { ft = none }) m, none)

  -- `ActivateSwarm(SwarmData* sd)`
  unfoldable pub activate_at : Os t → ℕ → Manager t → Manager t × Option ℕ
  unfolding deactivate_oldest start_swarm
  activate_at w p m =
      let (done, m1) = deactivate_oldest w m in
      if (m.swarm p).active
      then (m, some p)
      else if leb m.max_active_swarms m.active_swarm_count
      then (if done
          then start_swarm w p m1
          else (put p (record (m1.swarm p) { ft = none }) m1, none))
      else start_swarm w p m

  -- `ActivateSwarm(const Sha1Hash& rootHash)`
  unfoldable pub activate_swarm : Os t → RootHash → Manager t → Manager t × Option ℕ
  unfolding find_swarm activate_at
  activate_swarm w hash m = elim (find_swarm m hash) [
    | none ↦ (m, none)
    | some p ↦ activate_at w p m
  ]

  -- `SwarmData::SeqComplete`, of the swarm at `p`.
  unfoldable pub seq_complete : Os t → ℕ → ℕ → Manager t → Manager t × ℕ
  unfolding activate_swarm
  seq_complete w offset p m =
      let d = m.swarm p in
      let (m1, woken) = activate_swarm w d.root_hash m in
      elim d.ft [
        | some f ↦ (m, t.seq_complete offset f)
        | none ↦ if offset == 0 && d.cached then (m, d.cached_complete) else elim woken [
          | none ↦ (m1, 0)
          | some q ↦ elim (m1.swarm p).ft [
            | none ↦ (m1, 0)
            | some f ↦ (m1, t.seq_complete offset f)
          ]
        ]
      ]
