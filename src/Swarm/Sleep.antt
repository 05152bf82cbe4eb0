-- ===== src/Swarm/Sleep.antt =====
-- Putting one swarm to sleep keeps the invariant.
use libswift.Base.{
  ℕ, ◌-◌, ◌≤◌, ◌<◌, ◌≡◌, refl, ◌∙◌, ap, arith, Bool, true, false, Option, Option-cases, none, some,
  inl, inr, ◌⊎◌,
}
use libswift.Swarm.State.{Transfers, SwarmData, Os, Manager}
use libswift.Swarm.Vector.{get_elem?, member}
use libswift.Swarm.VectorLaws.{member-swap_out, swap_out-IsUnique, length-swap_out}
use libswift.Swarm.Build.{is_some}
use libswift.Swarm.BuildLaws.{deactivated-fields}
use libswift.Swarm.Oldest.{
  find_oldest-get_elem?, find_oldest-idle, find_oldest-le, find_oldest-none,
}
use libswift.Swarm.Activate.{
  idle_time, checkpoint_fails, deactivated, deactivate_at, find_oldest, deactivate_oldest,
}
use libswift.Swarm.Invariant.{IsListed-ext, Listed, Running, Sleeps, Keeps}

module _ {t : Transfers} (w : Os t) (p loc : ℕ) (m : Manager t) where
  abbrev slept : SwarmData t
  slept = deactivated (checkpoint_fails w m (m.swarm p).id) (m.swarm p)

  pub deactivate_at-Listed : Listed m → Listed (deactivate_at w p loc m)
  unfolding deactivate_at
  deactivate_at-Listed l =
      let f = deactivated-fields (checkpoint_fails w m (m.swarm p).id) (m.swarm p) in
      IsListed-ext (λ q. ground (arith, f.1)) (λ q. ground (arith, f.0)) l

  pub deactivate_at-Running :
      get_elem? m.active_swarms loc ≡ some p → Running m → Running (deactivate_at w p loc m)
  unfolding deactivate_at
  deactivate_at-Running e r =
      let f = deactivated-fields (checkpoint_fails w m (m.swarm p).id) (m.swarm p) in
      record {
        marked =
            λ q. ground (arith, r.marked q, member-swap_out q loc p m.active_swarms r.once e, f.2);
        once = swap_out-IsUnique loc p m.active_swarms r.once e;
        counted = omega (arith, r.counted, length-swap_out loc p m.active_swarms e);
        opened = λ q a b. ground (arith, r.opened q, f.2);
      }

  pub deactivate_at-Sleeps : (q : ℕ) → Sleeps m q → Sleeps (deactivate_at w p loc m) q
  unfolding deactivate_at is_some
  deactivate_at-Sleeps q s a b =
      let f = deactivated-fields (checkpoint_fails w m (m.swarm p).id) (m.swarm p) in
      ground (arith, s, f.2, f.3)

  pub deactivate_at-Keeps : Keeps m (deactivate_at w p loc m)
  unfolding deactivate_at
  deactivate_at-Keeps =
      let f = deactivated-fields (checkpoint_fails w m (m.swarm p).id) (m.swarm p) in
      record {
        alive = λ q a. a;
        root = λ q a. ground (arith, f.1);
        number = λ q a. ground (arith, f.0);
      }

-- `DeactivateSwarm()` puts one idle swarm to sleep, or finds none.
module _ {t : Transfers} (w : Os t) (m : Manager t) where
  abbrev Old : ℕ → Type 0
  Old p = (m.swarm p).latest_use < w.now - idle_time

  -- The rest of `DeactivateSwarm()`, from what the search found.
  abbrev after_search : Option (ℕ × ℕ) → Bool × Manager t
  after_search none = (false, m)
  after_search (some (p, loc)) = (true, deactivate_at w p loc m)

  deactivate_oldest_lem :
      deactivate_oldest w m
      ≡ after_search (find_oldest m.swarm (w.now - idle_time) 0 m.active_swarms none)
  unfolding deactivate_oldest
  deactivate_oldest_lem = refl

  pub deactivate_oldest-cases :
      (deactivate_oldest w m ≡ (false, m))
        × ((p : ℕ) → member p m.active_swarms ≡ true → w.now - idle_time ≤ (m.swarm p).latest_use)
      ⊎ ((p loc : ℕ) × (deactivate_oldest w m ≡ (true, deactivate_at w p loc m))
          × (get_elem? m.active_swarms loc ≡ some p)
          × Old p
          × ((q : ℕ)
              → member q m.active_swarms ≡ true
              → (m.swarm p).latest_use ≤ (m.swarm q).latest_use))
  deactivate_oldest-cases =
      let old = w.now - idle_time in
      elim (Option-cases (find_oldest m.swarm old 0 m.active_swarms none)) [
        | inl e ↦ inl (
          deactivate_oldest_lem ∙ ap after_search e,
          λ p h. find_oldest-none m.swarm old 0 m.active_swarms none p e h,
        )
        | inr ((p, loc), e) ↦ inr (
          p,
          loc,
          deactivate_oldest_lem ∙ ap after_search e,
          find_oldest-get_elem? m.swarm old m.active_swarms p loc e,
          find_oldest-idle m.swarm old 0 m.active_swarms none p loc tt e,
          λ q h. find_oldest-le m.swarm old 0 m.active_swarms none p loc q tt e h,
        )
      ]
