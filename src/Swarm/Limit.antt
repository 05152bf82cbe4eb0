-- ===== src/Swarm/Limit.antt =====
-- `SetMaximumActiveSwarms` and `CheckSwarmsToBeRemoved`.
use libswift.Base.{
  ℕ, zero, suc, ◌-◌, ◌≤◌, ◌<◌, ◌≡◌, refl, sym, ◌∙◌, arith, Bool, true, false, ◌||◌, some, ltb, inl,
  inr, Bool-cases, ◌⊎◌, ==-eq_false, ltb-eq_false,
}
use mathlib.Core.Path.{subst}
use libswift.Base.Int.{pos}
use libswift.Swarm.State.{Transfers, Os, Manager}
use libswift.Swarm.Vector.{get_elem?, member}
use libswift.Swarm.Activate.{
  idle_time, deactivate_at, deactivate_oldest, shrink_loop, set_maximum_active_swarms,
  check_swarms_to_be_removed,
}
use libswift.Swarm.Sleep.{deactivate_oldest-cases}
use libswift.Swarm.Idle.{deactivate_at-IsConsistent, deactivate_at-count}
use libswift.Swarm.Invariant.{IsConsistent}

module _ {t : Transfers} where
  -- At most `limit` swarms are active, or none of them was idle at a reading of the clock.
  abbrev pub IsWithin : (ℕ → Os t) → ℕ → Manager t → Type 0
  IsWithin w limit m =
      (m.active_swarm_count ≤ limit)
      ⊎ ((k : ℕ) × ((p : ℕ)
            → member p m.active_swarms ≡ true
            → (w k).now - idle_time ≤ (m.swarm p).latest_use))

  -- The rest of a round, after `DeactivateSwarm()`.
  abbrev after_try : ℕ → (ℕ → Os t) → ℕ → Bool × Manager t → Manager t
  after_try fuel w limit (true, m) = shrink_loop fuel (λ k. w (suc k)) limit m
  after_try fuel w limit (false, m) = m

  shrink_loop-more :
      (fuel : ℕ) (w : ℕ → Os t) (limit : ℕ) (m : Manager t)
      → limit < m.active_swarm_count
      → shrink_loop (suc fuel) w limit m ≡ after_try fuel w limit (deactivate_oldest (w 0) m)
  unfolding shrink_loop
  shrink_loop-more fuel w limit m h = ground arith

  shrink_loop-done :
      (fuel : ℕ) (w : ℕ → Os t) (limit : ℕ) (m : Manager t)
      → m.active_swarm_count ≤ limit
      → shrink_loop fuel w limit m ≡ m
  unfolding shrink_loop
  shrink_loop-done zero w limit m h = refl
  shrink_loop-done (suc fuel) w limit m h = rw (ltb-eq_false _ _ h)

  -- What the loop leaves, and what it does not touch.
  record IsShrunk (w : ℕ → Os t) (limit : ℕ) (m r : Manager t) : Type 0 where
    good : IsConsistent r
    within : IsWithin w limit r
    fewer : r.active_swarm_count ≤ m.active_swarm_count
    same_max : r.max_active_swarms ≡ m.max_active_swarms
    same_timer : r.timer ≡ m.timer

  later :
      (w : ℕ → Os t) (limit : ℕ) (m : Manager t)
      → IsWithin (λ k. w (suc k)) limit m
      → IsWithin w limit m
  later w limit m (inl h) = inl h
  later w limit m (inr (k, h)) = inr (suc k, h)

  deactivate_at-kept :
      (w : Os t) (p loc : ℕ) (m : Manager t)
      → ((deactivate_at w p loc m).max_active_swarms ≡ m.max_active_swarms)
        × ((deactivate_at w p loc m).timer ≡ m.timer)
  unfolding deactivate_at
  deactivate_at-kept w p loc m = (refl, refl)

  shrink_loop-IsShrunk :
      (fuel : ℕ) (w : ℕ → Os t) (limit : ℕ) (m : Manager t)
      → IsConsistent m
      → m.active_swarm_count ≤ fuel
      → IsShrunk w limit m (shrink_loop fuel w limit m)
  shrink_loop-IsShrunk zero w limit m c h =
      unfold shrink_loop in
      record {
        good = c;
        within = inl (omega arith);
        fewer = omega arith;
        same_max = refl;
        same_timer = refl;
      }
  shrink_loop-IsShrunk (suc fuel) w limit m c h =
      let step = λ (p loc : ℕ) (at : get_elem? m.active_swarms loc ≡ some p).
        shrink_loop-IsShrunk fuel (λ k. w (suc k)) limit (deactivate_at (w 0) p loc m)
          (deactivate_at-IsConsistent (w 0) p loc m at c)
          (omega (arith, deactivate_at-count (w 0) p loc m at c.running)) in
      elim (Bool-cases (ltb limit m.active_swarm_count)) [
        | inr e ↦ rw (shrink_loop-done (suc fuel) w limit m (ground arith)) (record {
          good = c;
          within = inl (ground arith);
          fewer = omega arith;
          same_max = refl;
          same_timer = refl;
        })
        | inl e ↦
            rw (shrink_loop-more fuel w limit m (ground arith))
              (elim (deactivate_oldest-cases (w 0) m) [
                | inl (r, none_idle) ↦ rw r (record {
                  good = c;
                  within = inr (0, none_idle);
                  fewer = omega arith;
                  same_max = refl;
                  same_timer = refl;
                })
                | inr (p, loc, r, at, old, least) ↦ rw r (
                    let s = step p loc at in
                    let kept = deactivate_at-kept (w 0) p loc m in
                    record {
                      good = s.good;
                      within =
                          later w limit
                            (shrink_loop fuel (λ k. w (suc k)) limit (deactivate_at (w 0) p loc m))
                            s.within;
                      fewer =
                          omega (arith, s.fewer, deactivate_at-count (w 0) p loc m at c.running);
                      same_max = s.same_max ∙ kept.0;
                      same_timer = s.same_timer ∙ kept.1;
                    })
              ])
      ]

  abbrev limited : ℕ → Manager t → Manager t
  limited n m = record m { max_active_swarms = n; timer = m.timer || ltb n m.active_swarm_count }

  set_maximum_lem :
      (w : ℕ → Os t) (n : ℕ) (m : Manager t)
      → 0 < n
      → set_maximum_active_swarms w (pos n) m ≡ limited n (shrink_loop m.active_swarm_count w n m)
  unfolding set_maximum_active_swarms
  set_maximum_lem w n m h = rw (==-eq_false n 0 (omega arith))

  -- What the setting of the maximum leaves.
  abbrev pub IsLimited : (ℕ → Os t) → ℕ → Manager t → Manager t → Type 0
  IsLimited w n m r =
      IsConsistent r
      × (r.max_active_swarms ≡ n)
      × IsWithin w n r
      × (r.active_swarm_count ≤ m.active_swarm_count)

  pub set_maximum_active_swarms-IsLimited :
      (w : ℕ → Os t) (n : ℕ) (m : Manager t)
      → 0 < n
      → IsConsistent m
      → IsLimited w n m (set_maximum_active_swarms w (pos n) m)
  set_maximum_active_swarms-IsLimited w n m h c =
      let s = shrink_loop-IsShrunk m.active_swarm_count w n m c (omega arith) in
      subst (IsLimited w n m) (sym (set_maximum_lem w n m h)) (
        record {
          listed = s.good.listed;
          running = s.good.running;
          watched = ground arith;
          asleep = s.good.asleep;
        },
        refl,
        s.within,
        s.fewer,
      )

  -- The timer's callback does the same for the maximum that is set.
  pub check_swarms_to_be_removed-IsLimited :
      (w : ℕ → Os t) (m : Manager t)
      → IsConsistent m
      → IsLimited w m.max_active_swarms m (check_swarms_to_be_removed w m)
  unfolding check_swarms_to_be_removed
  check_swarms_to_be_removed-IsLimited w m c =
      let n = m.max_active_swarms in
      let s = shrink_loop-IsShrunk m.active_swarm_count w n m c (omega arith) in
      (
        record {
          listed = s.good.listed;
          running = s.good.running;
          watched = ground (arith, s.same_max);
          asleep = s.good.asleep;
        },
        s.same_max,
        s.within,
        s.fewer,
      )
