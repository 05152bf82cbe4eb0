-- ===== src/Swarm/Wake.antt =====
-- The activation of a swarm keeps the invariant and the limit.
use Prim.Native.Nat.{max}
use libswift.Base.{
  ℕ, ◌+◌, ◌≤◌, ◌<◌, ◌≡◌, refl, arith, Bool, true, false, Option, none, some, ltb, inl, inr,
  Bool-cases,
}
use libswift.Swarm.State.{Transfers, Os, Manager, put}
use libswift.Swarm.Vector.{get_elem?}
use libswift.Swarm.Build.{is_some}
use libswift.Swarm.BuildLaws.{deactivated-fields}
use libswift.Swarm.Activate.{
  deactivate_at, deactivate_oldest, start_swarm, activate_at, checkpoint_fails,
}
use libswift.Swarm.Sleep.{
  deactivate_at-Listed, deactivate_at-Running, deactivate_at-Sleeps, deactivate_at-Keeps,
  deactivate_oldest-cases,
}
use libswift.Swarm.Idle.{deactivate_at-count}
use libswift.Swarm.Start.{put-Listed, closed-Running, start_swarm-good, Answers}
use libswift.Swarm.Invariant.{
  IsConsistentBut, IsConsistent, Keeps, put-Keeps, Keeps-trans, Keeps-refl,
}

module _ {t : Transfers} where
  -- What an activation leaves: a consistent state with as many active swarms as allowed, or as before.
  abbrev pub IsActivated : ℕ → Manager t → Manager t × Option ℕ → Type 0
  IsActivated p m r =
      IsConsistent r.0
      × Answers p r
      × (r.0.active_swarm_count ≤ max m.active_swarm_count m.max_active_swarms)
      × Keeps m r.0

  -- The rest of `ActivateSwarm` where the maximum is reached, after `DeactivateSwarm()`.
  abbrev pub after_room : Os t → ℕ → Bool × Manager t → Manager t × Option ℕ
  after_room w p (true, m) = start_swarm w p m
  after_room w p (false, m) = (put p (record (m.swarm p) { ft = none }) m, none)

  pub activate_at-active :
      (w : Os t) (p : ℕ) (m : Manager t)
      → (m.swarm p).active ≡ true
      → activate_at w p m ≡ (m, some p)
  unfolding activate_at
  activate_at-active w p m h = rw h

  pub activate_at-room :
      (w : Os t) (p : ℕ) (m : Manager t)
      → (m.swarm p).active ≡ false
      → m.active_swarm_count < m.max_active_swarms
      → activate_at w p m ≡ start_swarm w p m
  unfolding activate_at
  activate_at-room w p m h l = ground arith

  pub activate_at-full :
      (w : Os t) (p : ℕ) (m : Manager t)
      → (m.swarm p).active ≡ false
      → m.max_active_swarms ≤ m.active_swarm_count
      → activate_at w p m ≡ after_room w p (deactivate_oldest w m)
  unfolding activate_at
  activate_at-full w p m h l = ground arith

  module _ (w : Os t) (p : ℕ) (m : Manager t) (c : IsConsistentBut p m) (a : m.alive p ≡ true) where
    activate-refused :
        (m.swarm p).active ≡ false
        → IsActivated p m (put p (record (m.swarm p) { ft = none }) m, none)
    unfolding is_some
    activate-refused i = (
      record {
        listed = put-Listed p (record (m.swarm p) { ft = none }) m refl refl c.listed;
        running = closed-Running p (record (m.swarm p) { ft = none }) m i i c.running;
        watched = c.watched;
        asleep = λ q b e. ground (arith, c.asleep q);
      },
      inr (refl, ground arith, ground arith),
      omega arith,
      put-Keeps p (record (m.swarm p) { ft = none }) m refl refl,
    )

    activate-after :
        (q loc : ℕ)
        → (m.swarm p).active ≡ false
        → get_elem? m.active_swarms loc ≡ some q
        → IsActivated p m (start_swarm w p (deactivate_at w q loc m))
    activate-after q loc i at =
        let m1 = deactivate_at w q loc m in
        let off : m1.active_swarm_count + 1 ≡ m.active_swarm_count =
          omega (arith, deactivate_at-count w q loc m at c.running) in
        let r = start_swarm-good w p m1 (record {
          listed = deactivate_at-Listed w q loc m c.listed;
          running = deactivate_at-Running w q loc m at c.running;
          room = unfold deactivate_at in ground (arith, c.watched, off);
          asleep = λ x ne. deactivate_at-Sleeps w q loc m x (c.asleep x ne);
          present = unfold deactivate_at in a;
          idle =
              unfold deactivate_at in
              ground (arith, deactivated-fields (checkpoint_fails w m (m.swarm q).id) (m.swarm q));
        }) in
        (
          r.0,
          r.1,
          omega (arith, r.2, off),
          Keeps-trans m m1 (start_swarm w p m1).0 (deactivate_at-Keeps w q loc m) r.3,
        )

    -- The activation of a known swarm, whose transfer may be there already. It leaves a consistent
    -- state; it gives the swarm, which is active then, or NULL, and then the swarm is not active and has
    -- no transfer; no more swarms are active than the maximum, or than before; and the known swarms stay
    -- known, with their root hashes and numbers.
    pub activate_at-IsActivated : IsActivated p m (activate_at w p m)
    activate_at-IsActivated = elim (Bool-cases (m.swarm p).active) [
      | inl on ↦ rw (activate_at-active w p m on) (
        record {
          listed = c.listed;
          running = c.running;
          watched = c.watched;
          asleep = λ q b e. ground (arith, c.asleep q);
        },
        inl (refl, on),
        omega arith,
        Keeps-refl m,
      )
      | inr off ↦ elim (Bool-cases (ltb m.active_swarm_count m.max_active_swarms)) [
        | inl l ↦ rw (activate_at-room w p m off (ground arith)) (
            let r = start_swarm-good w p m (record {
              listed = c.listed;
              running = c.running;
              room = ground arith;
              asleep = c.asleep;
              present = a;
              idle = off;
            }) in
            (r.0, r.1, ground (arith, r.2), r.3))
        | inr l ↦
            rw (activate_at-full w p m off (ground arith)) (elim (deactivate_oldest-cases w m) [
              | inl (e, none_idle) ↦ rw e (activate-refused off)
              | inr (q, loc, e, at, old, least) ↦ rw e (activate-after q loc off at)
            ])
      ]
    ]
