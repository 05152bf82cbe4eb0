-- ===== src/Swarm/Lru.antt =====
-- `DeactivateSwarm()` puts the active swarm to sleep that has been unused for longest.
use libswift.Base.{
  ℕ, suc, ◌-◌, ◌≤◌, ◌<◌, ◌≡◌, ◌≢◌, ◌⊎◌, refl, sym, ◌∙◌, ap, arith, Bool, true, false, none, some,
  inl, inr, ==_iff,
}
use mathlib.Core.Path.{subst}
use libswift.Swarm.State.{Transfers, SwarmData, Os, Manager}
use libswift.Swarm.Data.{size, is_complete, complete, os_path_name}
use libswift.Swarm.Vector.{get_elem?, member}
use libswift.Swarm.VectorLaws.{member_of_get_elem?}
use libswift.Swarm.Build.{is_some}
use libswift.Swarm.Activate.{
  idle_time, checkpoint_fails, put_to_sleep, deactivated, deactivate_at, deactivate_oldest,
}
use libswift.Swarm.BuildLaws.{deactivated-fields}
use libswift.Swarm.Sleep.{deactivate_oldest-cases}
use libswift.Swarm.Idle.{deactivate_at-IsConsistent, deactivate_at-count, deactivate_at-other}
use libswift.Swarm.Invariant.{IsConsistent}

module _ {t : Transfers} where
  -- A swarm answers as another one does.
  abbrev pub AnswersAs : SwarmData t → SwarmData t → Type 0
  AnswersAs d e =
      (size e ≡ size d)
      × (is_complete e ≡ is_complete d)
      × (complete e ≡ complete d)
      × (os_path_name e ≡ os_path_name d)

  deactivated-AnswersAs :
      (failed : Bool) (d : SwarmData t) → is_some d.ft ≡ true → AnswersAs d (deactivated failed d)
  unfolding deactivated put_to_sleep size is_complete complete os_path_name is_some
  deactivated-AnswersAs failed d h = ground arith

  -- What putting the swarm `p` to sleep leaves.
  pub record IsAsleep (p : ℕ) (m m' : Manager t) : Type 0 where
    pub good : IsConsistent m'
    pub inactive : (m'.swarm p).active ≡ false
    pub closed : (m'.swarm p).ft ≡ none
    pub answers : AnswersAs (m.swarm p) (m'.swarm p)
    pub others : (q : ℕ) → q ≢ p → m'.swarm q ≡ m.swarm q
    pub count : m.active_swarm_count ≡ suc m'.active_swarm_count

  deactivate_at-IsAsleep :
      (w : Os t) (p loc : ℕ) (m : Manager t)
      → IsConsistent m
      → get_elem? m.active_swarms loc ≡ some p
      → IsAsleep p m (deactivate_at w p loc m)
  deactivate_at-IsAsleep w p loc m c at =
      let failed = checkpoint_fails w m (m.swarm p).id in
      let here = member_of_get_elem? p loc m.active_swarms at in
      let marked = c.running.marked p in
      let opened : is_some (m.swarm p).ft ≡ true =
        c.running.opened p (ground (arith, here, marked)) (ground (arith, here, marked)) in
      let f = deactivated-fields failed (m.swarm p) in
      let self : (deactivate_at w p loc m).swarm p ≡ deactivated failed (m.swarm p) =
        unfold deactivate_at in rw ((==_iff p p).1 refl) in
      record {
        good = deactivate_at-IsConsistent w p loc m at c;
        inactive = ap (λ d. d.active) self ∙ f.2;
        closed = ap (λ d. d.ft) self ∙ f.3;
        answers =
            subst (AnswersAs (m.swarm p)) (sym self)
              (deactivated-AnswersAs failed (m.swarm p) opened);
        others = deactivate_at-other w p loc m;
        count = deactivate_at-count w p loc m at c.running;
      }

  -- The two ends of `DeactivateSwarm()`.
  abbrev pub IsLru : Os t → Manager t → Bool × Manager t → Type 0
  IsLru w m r =
      ((r ≡ (false, m))
        × ((p : ℕ) → member p m.active_swarms ≡ true → w.now - idle_time ≤ (m.swarm p).latest_use))
      ⊎ ((p : ℕ) × (r.0 ≡ true)
          × (member p m.active_swarms ≡ true)
          × ((m.swarm p).latest_use < w.now - idle_time)
          × ((q : ℕ)
              → member q m.active_swarms ≡ true
              → (m.swarm p).latest_use ≤ (m.swarm q).latest_use)
          × IsAsleep p m r.1)

  -- In a consistent state DeactivateSwarm() gives false and changes nothing, and no active swarm has been
  -- unused for 300 seconds; or it gives true and puts an active swarm to sleep that has been unused for
  -- so long, and for no shorter time than any other active swarm. The state is consistent then, one
  -- swarm less is active, and only that swarm has changed: it is not active and has no transfer, and it
  -- answers Size, IsComplete, Complete and OSPathName as before.
  pub deactivate_oldest-IsLru :
      (w : Os t) (m : Manager t) → IsConsistent m → IsLru w m (deactivate_oldest w m)
  deactivate_oldest-IsLru w m c = elim (deactivate_oldest-cases w m) [
    | inl (e, none_idle) ↦ inl (e, none_idle)
    | inr (p, loc, e, at, old, least) ↦ subst (IsLru w m) (sym e) (
        inr (
          p,
          refl,
          member_of_get_elem? p loc m.active_swarms at,
          old,
          least,
          deactivate_at-IsAsleep w p loc m c at,
        ))
  ]
