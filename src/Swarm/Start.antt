-- ===== src/Swarm/Start.antt =====
-- The last steps of `ActivateSwarm` keep the invariant.
use libswift.Base.{
  ℕ, suc, ◌+◌, ◌≤◌, ◌≡◌, ◌≢◌, refl, ◌∙◌, arith, Bool, true, false, ◌||◌, leb, Option, none, some,
  [], ◌∷◌, ◌++◌, length-append, if◌then◌else◌, inl, inr, Bool-cases, ◌⊎◌,
}
use libswift.Swarm.State.{Transfers, SwarmData, Os, Manager, put}
use libswift.Swarm.VectorLaws.{member-append, append-IsUnique}
use libswift.Swarm.Build.{is_some, works, build_swarm}
use libswift.Swarm.BuildLaws.{IsSame, build_swarm-IsSame}
use libswift.Swarm.Activate.{start_swarm}
use libswift.Swarm.Invariant.{IsListed-ext, Listed, Running, Sleeps, IsConsistent, Keeps, put-Keeps}

module _ {t : Transfers} where
  -- The transfer that `ActivateSwarm` goes on with.
  abbrev pub opened : Os t → SwarmData t → SwarmData t
  opened w d = if works d then d else build_swarm w (record d { ft = none })

  opened-IsSame : (w : Os t) (d : SwarmData t) → d.root_hash ≢ 0 → IsSame d (opened w d)
  opened-IsSame w d nz = elim (Bool-cases (works d)) [
    | inl e ↦ rw e (refl, refl, refl)
    | inr e ↦ rw e (build_swarm-IsSame w (record d { ft = none }) nz)
  ]

  works-ft : (d : SwarmData t) → works d ≡ true → is_some d.ft ≡ true
  unfolding works is_some
  works-ft d h = ground arith

  -- A swarm that is rewritten with the same number, root hash and activity.
  pub put-Listed :
      (p : ℕ) (d : SwarmData t) (m : Manager t)
      → d.id ≡ (m.swarm p).id
      → d.root_hash ≡ (m.swarm p).root_hash
      → Listed m
      → Listed (put p d m)
  put-Listed p d m hi hr l = IsListed-ext (λ q. ground arith) (λ q. ground arith) l

  -- What the last steps of `ActivateSwarm` leave: the swarm runs and is given back, or has no transfer.
  abbrev pub started : ℕ → SwarmData t → Manager t → Manager t
  started p d m = record (put p (record d { active = true; latest_use = 0 }) m) {
    active_swarm_count = m.active_swarm_count + 1;
    active_swarms = m.active_swarms ++ p ∷ [];
  }

  started-Running :
      (p : ℕ) (d : SwarmData t) (m : Manager t)
      → m.alive p ≡ true
      → (m.swarm p).active ≡ false
      → is_some d.ft ≡ true
      → Running m
      → Running (started p d m)
  unfolding is_some
  started-Running p d m a i f r = record {
    marked = λ q. ground (arith, r.marked q, member-append q p m.active_swarms);
    once = append-IsUnique p m.active_swarms r.once (ground (arith, r.marked p));
    counted = ground (arith, r.counted, length-append m.active_swarms (p ∷ []));
    opened = λ q b c. ground (arith, r.opened q);
  }

  pub closed-Running :
      (p : ℕ) (d : SwarmData t) (m : Manager t)
      → (m.swarm p).active ≡ false
      → d.active ≡ false
      → Running m
      → Running (put p d m)
  closed-Running p d m i f r = record {
    marked = λ q. ground (arith, r.marked q);
    once = r.once;
    counted = r.counted;
    opened = λ q b c. ground (arith, r.opened q);
  }

  -- The swarm at `p` may start: it is known and not active, there is room for it, or the timer is
  -- pending.
  pub record MayStart (p : ℕ) (m : Manager t) : Type 0 where
    pub listed : Listed m
    pub running : Running m
    pub room : (leb (suc m.active_swarm_count) m.max_active_swarms || m.timer) ≡ true
    pub asleep : (q : ℕ) → q ≢ p → Sleeps m q
    pub present : m.alive p ≡ true
    pub idle : (m.swarm p).active ≡ false

  abbrev pub start_after : ℕ → Manager t → SwarmData t → Bool → Manager t × Option ℕ
  start_after p m d b =
      if b then (started p d m, some p) else (put p (record d { ft = none }) m, none)

  pub start_swarm_lem :
      (w : Os t) (p : ℕ) (m : Manager t)
      → start_swarm w p m ≡ start_after p m (opened w (m.swarm p)) (works (opened w (m.swarm p)))
  unfolding start_swarm
  start_swarm_lem w p m = refl

  -- What is given back: the swarm, which is active then, or NULL.
  abbrev pub Answers : ℕ → Manager t × Option ℕ → Type 0
  Answers p r =
      ((r.1 ≡ some p) × ((r.0.swarm p).active ≡ true))
      ⊎ ((r.1 ≡ none) × ((r.0.swarm p).ft ≡ none) × ((r.0.swarm p).active ≡ false))

  start_after-good :
      (p : ℕ) (m : Manager t) (d : SwarmData t) (b : Bool)
      → IsSame (m.swarm p) d
      → (b ≡ true → is_some d.ft ≡ true)
      → MayStart p m
      → IsConsistent (start_after p m d b).0
        × Answers p (start_after p m d b)
        × ((start_after p m d b).0.active_swarm_count ≤ suc m.active_swarm_count)
        × Keeps m (start_after p m d b).0
  unfolding is_some
  start_after-good p m d true s f c = (
    record {
      listed = put-Listed p (record d { active = true; latest_use = 0 }) m s.0 s.1 c.listed;
      running = started-Running p d m c.present c.idle (f refl) c.running;
      watched = ground (arith, c.room);
      asleep = λ q a b. ground (arith, c.asleep q);
    },
    inl (refl, ground arith),
    omega arith,
    record {
      alive = λ q a. a;
      root = λ q a. ground (arith, s.1);
      number = λ q a. ground (arith, s.0);
    },
  )
  start_after-good p m d false s f c = (
    record {
      listed = put-Listed p (record d { ft = none }) m s.0 s.1 c.listed;
      running = closed-Running p (record d { ft = none }) m c.idle (s.2 ∙ c.idle) c.running;
      watched = ground (arith, c.room);
      asleep = λ q a b. ground (arith, c.asleep q);
    },
    inr (refl, ground arith, ground (arith, s.2, c.idle)),
    omega arith,
    put-Keeps p (record d { ft = none }) m s.0 s.1,
  )

  pub start_swarm-good :
      (w : Os t) (p : ℕ) (m : Manager t)
      → MayStart p m
      → IsConsistent (start_swarm w p m).0
        × Answers p (start_swarm w p m)
        × ((start_swarm w p m).0.active_swarm_count ≤ suc m.active_swarm_count)
        × Keeps m (start_swarm w p m).0
  start_swarm-good w p m c =
      let d = opened w (m.swarm p) in
      rw (start_swarm_lem w p m) (
        start_after-good p m d (works d)
          (opened-IsSame w (m.swarm p) (c.listed.nonzero p c.present)) (works-ft d) c)
