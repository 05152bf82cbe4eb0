-- ===== src/Swarm/Idle.antt =====
-- `DeactivateIdleSwarms` and the loops that put swarms to sleep until few enough are active.
use libswift.Base.{
  ℕ, zero, suc, ◌+◌, ◌-◌, ◌≤◌, ◌<◌, ◌≡◌, ◌≢◌, refl, ◌∙◌, ap, arith, Bool, true, false, Option, some,
  inl, inr, ==-eq_false,
}
use libswift.Swarm.State.{Transfers, Os, Manager}
use libswift.Swarm.Vector.{get_elem?, member}
use libswift.Swarm.VectorLaws.{length-swap_out}
use libswift.Swarm.Activate.{
  idle_time, deactivate_at, deactivate_oldest, idle_loop, deactivate_idle_swarms,
}
use libswift.Swarm.Sleep.{
  deactivate_at-Listed, deactivate_at-Running, deactivate_at-Sleeps, deactivate_oldest-cases,
}
use libswift.Swarm.Invariant.{Running, IsConsistent}

module _ {t : Transfers} where
  -- What a round of `DeactivateSwarm()` keeps.
  pub deactivate_at-IsConsistent :
      (w : Os t) (p loc : ℕ) (m : Manager t)
      → get_elem? m.active_swarms loc ≡ some p
      → IsConsistent m
      → IsConsistent (deactivate_at w p loc m)
  deactivate_at-IsConsistent w p loc m e c = record {
    listed = deactivate_at-Listed w p loc m c.listed;
    running = deactivate_at-Running w p loc m e c.running;
    watched = unfold deactivate_at in ground (arith, c.watched);
    asleep = λ q. deactivate_at-Sleeps w p loc m q (c.asleep q);
  }

  pub deactivate_at-count :
      (w : Os t) (p loc : ℕ) (m : Manager t)
      → get_elem? m.active_swarms loc ≡ some p
      → Running m
      → m.active_swarm_count ≡ suc (deactivate_at w p loc m).active_swarm_count
  unfolding deactivate_at
  deactivate_at-count w p loc m e r =
      omega (arith, r.counted, length-swap_out loc p m.active_swarms e)

  pub deactivate_at-other :
      (w : Os t) (p loc : ℕ) (m : Manager t) (q : ℕ)
      → q ≢ p
      → (deactivate_at w p loc m).swarm q ≡ m.swarm q
  unfolding deactivate_at
  deactivate_at-other w p loc m q ne = rw (==-eq_false q p ne)

  -- What the loop of `DeactivateIdleSwarms` leaves. Each round reads the clock anew and puts one swarm
  -- to sleep, so the last reading is the one numbered by the swarms put to sleep. At that reading no
  -- active swarm is idle, and the swarms that were idle at no reading are as they were.
  abbrev pub Rested : (ℕ → Os t) → Manager t → Manager t → Type 0
  Rested w m m' =
      IsConsistent m'
      × ((k : ℕ) × (m'.active_swarm_count + k ≡ m.active_swarm_count)
          × ((p : ℕ)
              → member p m'.active_swarms ≡ true
              → (w k).now - idle_time ≤ (m'.swarm p).latest_use))
      × ((p : ℕ)
          → ((k : ℕ) → (w k).now - idle_time ≤ (m.swarm p).latest_use)
          → m'.swarm p ≡ m.swarm p)

  -- The rest of a round, after `DeactivateSwarm()`.
  abbrev after_round : ℕ → (ℕ → Os t) → Bool × Manager t → Option (Manager t)
  after_round fuel w (true, m) = idle_loop fuel (λ k. w (suc k)) m
  after_round fuel w (false, m) = some m

  idle_loop_lem :
      (fuel : ℕ) (w : ℕ → Os t) (m : Manager t)
      → idle_loop (suc fuel) w m ≡ after_round fuel w (deactivate_oldest (w 0) m)
  unfolding idle_loop
  idle_loop_lem fuel w m = ground arith

  idle_loop-Rested :
      (fuel : ℕ) (w : ℕ → Os t) (m : Manager t)
      → IsConsistent m
      → m.active_swarm_count < fuel
      → (m' : Manager t) × (idle_loop fuel w m ≡ some m') × Rested w m m'
  idle_loop-Rested zero w m c h = absurd (omega arith)
  idle_loop-Rested (suc fuel) w m c h = elim (deactivate_oldest-cases (w 0) m) [
    | inl (e, none_idle) ↦ (
      m,
      idle_loop_lem fuel w m ∙ ap (after_round fuel w) e,
      (c, (0, omega arith, none_idle), λ p awake. refl),
    )
    | inr (p, loc, e, at, old, least) ↦
        let m1 = deactivate_at (w 0) p loc m in
        let (m', e', (c', (k, count, ends), keeps)) =
          idle_loop-Rested fuel (λ k. w (suc k)) m1 (deactivate_at-IsConsistent (w 0) p loc m at c)
            (omega (arith, deactivate_at-count (w 0) p loc m at c.running)) in
        (
          m',
          idle_loop_lem fuel w m ∙ ap (after_round fuel w) e ∙ e',
          (
            c',
            (suc k, omega (arith, count, deactivate_at-count (w 0) p loc m at c.running), ends),
            λ q awake.
                let ne : q ≢ p = λ same.
                  absurd (omega (arith, awake 0, old, ap (λ x. (m.swarm x).latest_use) same)) in
                let other = deactivate_at-other (w 0) p loc m q ne in
                keeps q (λ k. rw other (awake (suc k))) ∙ other,
          ),
        )
  ]

  -- From a consistent state DeactivateIdleSwarms comes to an end, whatever the clock shows in each
  -- round. It leaves a consistent state. If it put k swarms to sleep, then at reading k of the clock,
  -- counted from 0, no swarm that is still active has been unused for 300 seconds; and a swarm that was
  -- idle at no reading is left as it was.
  pub deactivate_idle_swarms-rests :
      (w : ℕ → Os t) (m : Manager t)
      → IsConsistent m
      → (m' : Manager t) × (deactivate_idle_swarms w m ≡ some m') × Rested w m m'
  unfolding deactivate_idle_swarms
  deactivate_idle_swarms-rests w m c =
      idle_loop-Rested (suc m.active_swarm_count) w m c (omega arith)
