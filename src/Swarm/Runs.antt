-- ===== src/Swarm/Runs.antt =====
-- Every run of the manager from its constructor on is consistent.
use libswift.Base.{
  ℕ, zero, suc, ◌≡◌, ◌≢◌, refl, sym, ◌∙◌, arith, Bool, true, Option, Option-cases, none, some, inl,
  inr, ◌⊎◌,
}
use mathlib.Core.Path.{subst}
use libswift.Base.Int.{ℤ, pos, negsuc}
use libswift.Swarm.State.{
  Direction, RootHash, Transfers, SwarmData, Os, Manager, new_manager, root_at, put,
}
use libswift.Swarm.Data.{touch, set_max_speed, add_progress_callback, remove_progress_callback}
use libswift.Swarm.Vector.{index_from, member}
use libswift.Swarm.VectorLaws.{index_from-get_elem?}
use libswift.Swarm.Build.{is_some}
use libswift.Swarm.Search.{find_swarm, slot_at}
use libswift.Swarm.Activate.{
  deactivate_at, deactivate_swarm, deactivate_idle_swarms, set_maximum_active_swarms,
  check_swarms_to_be_removed, activate_swarm, seq_complete,
}
use libswift.Swarm.Add.{add_swarm}
use libswift.Swarm.Remove.{remove_swarm}
use libswift.Swarm.Idle.{deactivate_at-IsConsistent, deactivate_idle_swarms-rests}
use libswift.Swarm.Limit.{set_maximum_active_swarms-IsLimited, check_swarms_to_be_removed-IsLimited}
use libswift.Swarm.Find.{find_swarm_iff, activate_swarm-IsActivated, activate_swarm-none}
use libswift.Swarm.AddNew.{CanSeed, add_swarm-IsAdded, add_swarm-IsSeeded}
use libswift.Swarm.RemoveLaws.{remove_swarm-IsRemoved}
use libswift.Swarm.Methods.{
  method-IsConsistent, touch-LooksAs, speed-LooksAs, add_callback-LooksAs, remove_callback-LooksAs,
}
use libswift.Swarm.Invariant.{IsConsistent}

module _ {t : Transfers} where
  -- One call of the manager or of a swarm by the rest of the program, or a change of a transfer that is
  -- there. A root hash is removed only if a swarm has it.
  pub data Step : Manager t → Manager t → Type 0 where
    add :
        (w : Os t) (given : SwarmData t) (activate : Bool) (m : Manager t)
        → given.root_hash ≢ 0
        → Step m (add_swarm w given activate m).0
    seed :
        (w : Os t) (given : SwarmData t) (activate : Bool) (m : Manager t)
        → CanSeed w
        → given.root_hash ≡ 0
        → Step m (add_swarm w given activate m).0
    remove :
        (w : Os t) (remove_state remove_content : Bool) (p : ℕ) (m : Manager t)
        → m.alive p ≡ true
        → Step m (remove_swarm w (root_at m p) remove_state remove_content m).0
    activate : (w : Os t) (h : RootHash) (m : Manager t) → Step m (activate_swarm w h m).0
    deactivate : (w : Os t) (h : RootHash) (m : Manager t) → Step m (deactivate_swarm w h m)
    deactivate_idle :
        (w : ℕ → Os t) (m m' : Manager t) → deactivate_idle_swarms w m ≡ some m' → Step m m'
    set_maximum : (w : ℕ → Os t) (n : ℤ) (m : Manager t) → Step m (set_maximum_active_swarms w n m)
    check : (w : ℕ → Os t) (m : Manager t) → Step m (check_swarms_to_be_removed w m)
    use_swarm :
        (w : Os t) (only_if_active : Bool) (p : ℕ) (m : Manager t)
        → Step m (put p (touch w only_if_active (m.swarm p)).1 m)
    ask_seq_complete :
        (w : Os t) (offset p : ℕ) (m : Manager t) → Step m (seq_complete w offset p m).0
    limit_speed :
        (ddir : Direction) (speed : t.Speed) (p : ℕ) (m : Manager t)
        → Step m (put p (set_max_speed ddir speed (m.swarm p)) m)
    add_callback :
        (cb : ℕ × ℕ) (p : ℕ) (m : Manager t)
        → Step m (put p (add_progress_callback cb (m.swarm p)) m)
    remove_callback :
        (cb p : ℕ) (m : Manager t) → Step m (put p (remove_progress_callback cb (m.swarm p)) m)
    transfer_goes_on :
        (f f' : t.Transfer) (p : ℕ) (m : Manager t)
        → (m.swarm p).ft ≡ some f
        → Step m (put p (record (m.swarm p) { ft = some f' }) m)

  -- The states that are reached from the constructor.
  pub data Reached : Manager t → Type 0 where
    start : (memory : ℕ → SwarmData t) → Reached (new_manager memory)
    step : {m m' : Manager t} → Reached m → Step m m' → Reached m'

  pub new_manager-IsConsistent : (memory : ℕ → SwarmData t) → IsConsistent (new_manager memory)
  unfolding new_manager member slot_at
  new_manager-IsConsistent memory = record {
    listed = record {
      found = λ i p. refl;
      rises = λ i. tt;
      nonzero = λ p a. cc;
      numbered = λ p a. cc;
      held = λ k p h. cc;
      vacant = λ k. ground arith;
      once = tt;
      fresh = λ p a. cc;
    };
    running = record { marked = λ p. refl; once = tt; counted = refl; opened = λ p a. cc };
    watched = refl;
    asleep = λ p a. cc;
  }

  -- `DeactivateSwarm(rootHash)`, from what the searches found.
  abbrev after_index : Os t → Manager t → ℕ → Option ℕ → Manager t
  after_index w m p none = m
  after_index w m p (some loc) = deactivate_at w p loc m

  abbrev after_find : Os t → Manager t → Option ℕ → Manager t
  after_find w m none = m
  after_find w m (some p) = after_index w m p (index_from 0 p m.active_swarms)

  deactivate_swarm_lem :
      (w : Os t) (h : RootHash) (m : Manager t)
      → deactivate_swarm w h m ≡ after_find w m (find_swarm m h)
  unfolding deactivate_swarm
  deactivate_swarm_lem w h m = ground arith

  after_find-IsConsistent :
      (w : Os t) (m : Manager t) (o : Option ℕ) → IsConsistent m → IsConsistent (after_find w m o)
  after_find-IsConsistent w m none c = c
  after_find-IsConsistent w m (some p) c = elim (Option-cases (index_from 0 p m.active_swarms)) [
    | inl e ↦ subst (λ o. IsConsistent (after_index w m p o)) (sym e) c
    | inr (loc, e) ↦
        let (j, off, at) = index_from-get_elem? 0 p loc m.active_swarms e in
        let same : loc ≡ j = omega (arith, off) in
        subst (λ o. IsConsistent (after_index w m p o)) (sym e)
          (deactivate_at-IsConsistent w p loc m (rw same at) c)
  ]

  pub deactivate_swarm-IsConsistent :
      (w : Os t) (h : RootHash) (m : Manager t)
      → IsConsistent m
      → IsConsistent (deactivate_swarm w h m)
  deactivate_swarm-IsConsistent w h m c =
      subst IsConsistent (sym (deactivate_swarm_lem w h m))
        (after_find-IsConsistent w m (find_swarm m h) c)

  activate-IsConsistent :
      (w : Os t) (h : RootHash) (m : Manager t)
      → IsConsistent m
      → IsConsistent (activate_swarm w h m).0
  activate-IsConsistent w h m c = elim (Option-cases (find_swarm m h)) [
    | inr (p, e) ↦
        let (a, root) = (find_swarm_iff m c.listed h p).0 e in
        subst (λ x. IsConsistent (activate_swarm w x m).0) root
          (activate_swarm-IsActivated w p m c a).0.0
    | inl e ↦ subst (λ r. IsConsistent r.0) (sym (activate_swarm-none w h m e)) c
  ]

  set_maximum-IsConsistent :
      (w : ℕ → Os t) (n : ℤ) (m : Manager t)
      → IsConsistent m
      → IsConsistent (set_maximum_active_swarms w n m)
  set_maximum-IsConsistent w (pos zero) m c = unfold set_maximum_active_swarms in c
  set_maximum-IsConsistent w (pos (suc n)) m c =
      (set_maximum_active_swarms-IsLimited w (suc n) m (omega arith) c).0
  set_maximum-IsConsistent w (negsuc n) m c = unfold set_maximum_active_swarms in c

  seq_complete-cases :
      (w : Os t) (offset p : ℕ) (m : Manager t)
      → ((seq_complete w offset p m).0 ≡ m)
        ⊎ ((seq_complete w offset p m).0 ≡ (activate_swarm w (root_at m p) m).0)
  unfolding seq_complete
  seq_complete-cases w offset p m = ground arith

  Step-IsConsistent : {m m' : Manager t} → Step m m' → IsConsistent m → IsConsistent m'
  Step-IsConsistent (add w given a m nz) c = (add_swarm-IsAdded w given a m c nz).0
  Step-IsConsistent (seed w given a m s z) c = elim (add_swarm-IsSeeded w given a m c s z) [
    | inl e ↦ subst (λ r. IsConsistent r.0) (sym e) c
    | inr (h, nz, good) ↦ good.0
  ]
  Step-IsConsistent (remove w rs rc p m a) c = (remove_swarm-IsRemoved w rs rc p m c a).0
  Step-IsConsistent (activate w h m) c = activate-IsConsistent w h m c
  Step-IsConsistent (deactivate w h m) c = deactivate_swarm-IsConsistent w h m c
  Step-IsConsistent (deactivate_idle w m m' e) c =
      let (r, ends, rested) = deactivate_idle_swarms-rests w m c in
      let same : some r ≡ some m' = sym ends ∙ e in subst IsConsistent (ground arith) rested.0
  Step-IsConsistent (set_maximum w n m) c = set_maximum-IsConsistent w n m c
  Step-IsConsistent (check w m) c = (check_swarms_to_be_removed-IsLimited w m c).0
  Step-IsConsistent (use_swarm w b p m) c =
      method-IsConsistent p (touch w b (m.swarm p)).1 m (touch-LooksAs w b (m.swarm p)) c
  Step-IsConsistent (ask_seq_complete w offset p m) c = elim (seq_complete-cases w offset p m) [
    | inl e ↦ subst IsConsistent (sym e) c
    | inr e ↦ subst IsConsistent (sym e) (activate-IsConsistent w (root_at m p) m c)
  ]
  Step-IsConsistent (limit_speed ddir v p m) c =
      method-IsConsistent p (set_max_speed ddir v (m.swarm p)) m (speed-LooksAs ddir v (m.swarm p))
        c
  Step-IsConsistent (add_callback cb p m) c =
      method-IsConsistent p (add_progress_callback cb (m.swarm p)) m
        (add_callback-LooksAs cb (m.swarm p)) c
  Step-IsConsistent (remove_callback cb p m) c =
      method-IsConsistent p (remove_progress_callback cb (m.swarm p)) m
        (remove_callback-LooksAs cb (m.swarm p)) c
  Step-IsConsistent (transfer_goes_on f f' p m e) c =
      method-IsConsistent p (record (m.swarm p) { ft = some f' }) m
        (unfold is_some in (refl, refl, refl, ground (arith, e))) c

  -- Every state that the calls of the manager and of its swarms, and the changes of the transfers that
  -- are there, reach from the manager's constructor is consistent: the two
  -- directories agree, the active swarms are those with a transfer, their count is right, and it is at
  -- most the maximum unless the timer is pending. In the run, root hashes are removed only if a swarm has
  -- them, and swarms without a root hash are added only where files can be seeded.
  pub Reached-IsConsistent : {m : Manager t} → Reached m → IsConsistent m
  Reached-IsConsistent (start memory) = new_manager-IsConsistent memory
  Reached-IsConsistent (step r s) = Step-IsConsistent s (Reached-IsConsistent r)
