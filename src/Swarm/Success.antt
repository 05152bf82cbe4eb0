-- ===== src/Swarm/Success.antt =====
-- When the activation of a swarm succeeds.
use libswift.Base.{
  ℕ, ◌-◌, ◌≤◌, ◌<◌, ◌≡◌, ◌≢◌, ◌↔◌, ◌⊎◌, refl, sym, ap, arith, Bool, true, false, none, some, ltb,
  inl, inr, Bool-cases,
}
use mathlib.Core.Path.{subst}
use libswift.Swarm.State.{Transfers, SwarmData, Os, Manager}
use libswift.Swarm.Vector.{get_elem?, member}
use libswift.Swarm.VectorLaws.{member_of_get_elem?}
use libswift.Swarm.Build.{works}
use libswift.Swarm.Activate.{idle_time, deactivate_at, start_swarm, activate_at}
use libswift.Swarm.Sleep.{deactivate_oldest-cases}
use libswift.Swarm.Idle.{deactivate_at-other}
use libswift.Swarm.Start.{opened, start_after, start_swarm_lem}
use libswift.Swarm.Wake.{activate_at-active, activate_at-room, activate_at-full}
use libswift.Swarm.Invariant.{Running}

module _ {t : Transfers} (w : Os t) (p : ℕ) where
  -- There is room for one more active swarm, or an active swarm is idle and can make room.
  abbrev pub HasRoom : Manager t → Type 0
  HasRoom m =
      (m.active_swarm_count < m.max_active_swarms)
      ⊎ ((q : ℕ) × (member q m.active_swarms ≡ true) × ((m.swarm q).latest_use < w.now - idle_time))

  -- The swarm is active, or there is room for it and its transfer works, if need be a new one.
  abbrev pub CanActivate : Manager t → Type 0
  CanActivate m = ((m.swarm p).active ≡ true) ⊎ (HasRoom m × (works (opened w (m.swarm p)) ≡ true))

  start_after_iff :
      (m : Manager t) (d : SwarmData t) (b : Bool) → ((start_after p m d b).1 ≡ some p) ↔ (b ≡ true)
  start_after_iff m d true = (λ h. refl, λ h. refl)
  start_after_iff m d false = (λ h. cc, λ h. cc)

  start_swarm_iff :
      (m : Manager t) → ((start_swarm w p m).1 ≡ some p) ↔ (works (opened w (m.swarm p)) ≡ true)
  start_swarm_iff m =
      rw (start_swarm_lem w p m)
        (start_after_iff m (opened w (m.swarm p)) (works (opened w (m.swarm p))))

  module _ (m : Manager t) (r : Running m) where
    room_iff :
        (m.swarm p).active ≡ false
        → m.active_swarm_count < m.max_active_swarms
        → ((start_swarm w p m).1 ≡ some p) ↔ CanActivate m
    room_iff off l =
        let s = start_swarm_iff m in
        (
          λ h. inr (inl l, s.0 h),
          λ can. elim can [ inl on ↦ absurd (cc (on, off)) | inr (_, ok) ↦ s.1 ok ],
        )

    refused_iff :
        (m.swarm p).active ≡ false
        → m.max_active_swarms ≤ m.active_swarm_count
        → ((q : ℕ) → member q m.active_swarms ≡ true → w.now - idle_time ≤ (m.swarm q).latest_use)
        → (none ≡ some p) ↔ CanActivate m
    refused_iff off full none_idle = (
      λ h. cc,
      λ can. elim can [
        | inl on ↦ absurd (cc (on, off))
        | inr (inl l, _) ↦ absurd (omega arith)
        | inr (inr (q, here, old), _) ↦ absurd (omega (arith, none_idle q here))
      ],
    )

    slept_iff :
        (q loc : ℕ)
        → (m.swarm p).active ≡ false
        → get_elem? m.active_swarms loc ≡ some q
        → (m.swarm q).latest_use < w.now - idle_time
        → ((start_swarm w p (deactivate_at w q loc m)).1 ≡ some p) ↔ CanActivate m
    slept_iff q loc off at old =
        let here = member_of_get_elem? q loc m.active_swarms at in
        let on : (m.swarm q).active ≡ true = ground (arith, r.marked q, here) in
        let ne : p ≢ q = λ e. absurd (cc (on, off, ap (λ x. (m.swarm x).active) e)) in
        let same = deactivate_at-other w q loc m p ne in
        let s = start_swarm_iff (deactivate_at w q loc m) in
        (
          λ h. inr (inr (q, here, old), subst (λ d. works (opened w d) ≡ true) same (s.0 h)),
          λ can. elim can [
            | inl y ↦ absurd (cc (y, off))
            | inr (_, ok) ↦ s.1 (subst (λ d. works (opened w d) ≡ true) (sym same) ok)
          ],
        )

    -- `ActivateSwarm` gives the swarm exactly if it can be activated.
    pub activate_at_iff : ((activate_at w p m).1 ≡ some p) ↔ CanActivate m
    activate_at_iff = elim (Bool-cases (m.swarm p).active) [
      | inl on ↦ rw (activate_at-active w p m on) (λ h. inl on, λ can. refl)
      | inr off ↦ elim (Bool-cases (ltb m.active_swarm_count m.max_active_swarms)) [
        | inl l ↦ rw (activate_at-room w p m off (ground arith)) (room_iff off (ground arith))
        | inr l ↦
            let full : m.max_active_swarms ≤ m.active_swarm_count = ground arith in
            rw (activate_at-full w p m off full) (elim (deactivate_oldest-cases w m) [
              | inl (e, none_idle) ↦ rw e (refused_iff off full none_idle)
              | inr (q, loc, e, at, old, least) ↦ rw e (slept_iff q loc off at old)
            ])
      ]
    ]
