-- ===== src/Swarm/AddNew.antt =====
-- `AddSwarm` as a whole.
use libswift.Base.{
  ℕ, ◌≡◌, ◌≢◌, refl, sym, ◌∙◌, ap, arith, Bool, true, false, not, ◌&&◌, Option, Option-cases, none,
  some, ◌++◌, ◌==◌, if◌then◌else◌, inl, inr, Bool-cases, ◌⊎◌, ==_iff, ==-eq_false,
}
use mathlib.Core.Path.{subst}
use libswift.Swarm.State.{Text, RootHash, Transfers, SwarmData, Os, Manager}
use libswift.Swarm.Data.{copy_swarm}
use libswift.Swarm.Build.{build_swarm}
use libswift.Swarm.BuildLaws.{made, build_swarm-zero}
use libswift.Swarm.Add.{
  mbinmap_suffix, is_good_on_disk, sleeping, prepare_swarm, enter_swarm, add_prepared, add_swarm,
}
use libswift.Swarm.AddLaws.{IsAdded, enter_swarm-IsAdded}
use libswift.Swarm.Invariant.{IsConsistent}

module _ {t : Transfers} where
  copy_swarm-fields :
      (w : Os t) (d : SwarmData t)
      → ((copy_swarm w d).root_hash ≡ d.root_hash)
        × ((copy_swarm w d).active ≡ false)
        × ((copy_swarm w d).ft ≡ none)
  unfolding copy_swarm
  copy_swarm-fields w d = (refl, refl, refl)

  -- `prepare_swarm` and `add_prepared`, from their first test on.
  abbrev after_test : Os t → SwarmData t → Bool → Bool → SwarmData t × Bool
  after_test w given activate b =
      let d = copy_swarm w given in
      if b
      then (if is_good_on_disk w given.filename then (sleeping w d, activate) else (d, true))
      else (d, activate)

  abbrev after_root : Os t → SwarmData t → Bool → Manager t → Bool → Manager t × Option ℕ
  after_root w d activate m b =
      let built = build_swarm w d in
      if b
      then elim built.ft [ none ↦ (m, none) | some f ↦ enter_swarm w built activate m ]
      else enter_swarm w d activate m

  prepare-named :
      (w : Os t) (given : SwarmData t) (activate : Bool)
      → given.root_hash ≢ 0
      → prepare_swarm w given activate ≡ (copy_swarm w given, activate)
  unfolding prepare_swarm
  prepare-named w given activate nz =
      ap (λ (b : Bool). after_test w given activate (b && not activate)) (==-eq_false _ _ nz)

  add_prepared-named :
      (w : Os t) (d : SwarmData t) (activate : Bool) (m : Manager t)
      → d.root_hash ≢ 0
      → add_prepared w (d, activate) m ≡ enter_swarm w d activate m
  unfolding add_prepared
  add_prepared-named w d activate m nz =
      ap (λ (b : Bool). after_root w d activate m b) (==-eq_false _ _ nz)

  add_swarm-named :
      (w : Os t) (given : SwarmData t) (activate : Bool) (m : Manager t)
      → given.root_hash ≢ 0
      → add_swarm w given activate m ≡ enter_swarm w (copy_swarm w given) activate m
  unfolding add_swarm
  add_swarm-named w given activate m nz =
      ap (λ d. add_prepared w d m) (prepare-named w given activate nz)
      ∙ add_prepared-named w (copy_swarm w given) activate m
          (λ z. nz (sym (copy_swarm-fields w given).0 ∙ z))

  -- In a consistent state AddSwarm of a swarm with a root hash leaves a consistent state, in which the
  -- root hash finds the swarm that is given back. No more swarms are active than the maximum or than
  -- before, and the swarms that were known keep their root hashes and numbers. If a swarm with the root
  -- hash was known, it is given back, and nothing changes.
  pub add_swarm-IsAdded :
      (w : Os t) (given : SwarmData t) (activate : Bool) (m : Manager t)
      → IsConsistent m
      → given.root_hash ≢ 0
      → IsAdded given.root_hash m (add_swarm w given activate m)
  add_swarm-IsAdded w given activate m c nz =
      let f = copy_swarm-fields w given in
      subst (IsAdded given.root_hash m) (sym (add_swarm-named w given activate m nz)) (
        subst (λ h. IsAdded h m (enter_swarm w (copy_swarm w given) activate m)) f.0
          (enter_swarm-IsAdded w (copy_swarm w given) activate m c (λ z. nz (sym f.0 ∙ z)) f.1
            (λ off. f.2)))

  -- The files of a seeder can be opened: the transfer of a swarm without a root hash works and has a root
  -- hash, and so has the checkpoint of a file.
  pub record CanSeed (w : Os t) : Type 0 where
    pub works : (d : SwarmData t) → t.is_operational (made w d) ≡ true
    pub named : (d : SwarmData t) → t.swarm_id (made w d) ≢ 0
    pub saved : (filename : Text) → (w.checkpoint_tree filename).0 ≢ 0

  -- The two ends of `AddSwarm` without a root hash.
  abbrev pub IsSeeded : Manager t → Manager t × Option ℕ → Type 0
  IsSeeded m r = (r ≡ (m, none)) ⊎ ((h : RootHash) × (h ≢ 0) × IsAdded h m r)

  abbrev after_build : Os t → SwarmData t → Manager t → Option t.Transfer → Manager t × Option ℕ
  after_build w d m none = (m, none)
  after_build w d m (some f) = enter_swarm w (build_swarm w d) true m

  add_prepared-zero :
      (w : Os t) (d : SwarmData t) (m : Manager t)
      → d.root_hash ≡ 0
      → add_prepared w (d, true) m ≡ after_build w d m (build_swarm w d).ft
  unfolding add_prepared
  add_prepared-zero w d m z =
      ap (λ (b : Bool). after_root w d true m b) ((==_iff d.root_hash 0).1 z)

  built-IsSeeded :
      (w : Os t) (d : SwarmData t) (m : Manager t)
      → IsConsistent m
      → CanSeed w
      → d.root_hash ≡ 0
      → d.active ≡ false
      → d.ft ≡ none
      → IsSeeded m (add_prepared w (d, true) m)
  built-IsSeeded w d m c s z still none_yet = elim (build_swarm-zero w d z (s.works d)) [
    | inl same ↦
        inl (add_prepared-zero w d m z ∙ ap (after_build w d m) (ap (λ x. x.ft) same ∙ none_yet))
    | inr (root, active) ↦ elim (Option-cases (build_swarm w d).ft) [
      | inl e ↦ inl (add_prepared-zero w d m z ∙ ap (after_build w d m) e)
      | inr (f, e) ↦
          let built = build_swarm w d in
          let nz : built.root_hash ≢ 0 = λ y. s.named d (sym root ∙ y) in
          inr (
            built.root_hash,
            nz,
            subst (IsAdded built.root_hash m)
                (sym (add_prepared-zero w d m z ∙ ap (after_build w d m) e))
                (enter_swarm-IsAdded w built true m c nz (active ∙ still) (λ off. absurd (cc off))),
          )
    ]
  ]

  asleep-IsSeeded :
      (w : Os t) (given : SwarmData t) (m : Manager t)
      → IsConsistent m
      → CanSeed w
      → IsSeeded m (add_prepared w (sleeping w (copy_swarm w given), false) m)
  unfolding sleeping copy_swarm
  asleep-IsSeeded w given m c s =
      let d = sleeping w (copy_swarm w given) in
      let nz : d.root_hash ≢ 0 = s.saved (given.filename ++ mbinmap_suffix) in
      inr (
        d.root_hash,
        nz,
        subst (IsAdded d.root_hash m) (sym (add_prepared-named w d false m nz))
            (enter_swarm-IsAdded w d false m c nz refl (λ off. refl)),
      )

  prepared-IsSeeded :
      (w : Os t) (given : SwarmData t) (activate : Bool) (m : Manager t)
      → IsConsistent m
      → CanSeed w
      → given.root_hash ≡ 0
      → (b : Bool) → (b ≡ false → activate ≡ true)
      → (b ≡ true → activate ≡ false)
      → IsSeeded m (add_prepared w (after_test w given activate b) m)
  prepared-IsSeeded w given activate m c s z b off on =
      let d = copy_swarm w given in
      let f = copy_swarm-fields w given in
      let built = built-IsSeeded w d m c s (f.0 ∙ z) f.1 f.2 in
      elim (Bool-cases b) [
        | inr e ↦ rw (e, off e) built
        | inl e ↦ elim (Bool-cases (is_good_on_disk w given.filename)) [
          | inl good ↦ rw (e, good, on e) (asleep-IsSeeded w given m c s)
          | inr bad ↦ rw (e, bad) built
        ]
      ]

  -- In a consistent state, and where files can be seeded, AddSwarm of a swarm without a root hash gives
  -- NULL and changes nothing, or it leaves what AddSwarm with some root hash other than zero leaves.
  pub add_swarm-IsSeeded :
      (w : Os t) (given : SwarmData t) (activate : Bool) (m : Manager t)
      → IsConsistent m
      → CanSeed w
      → given.root_hash ≡ 0
      → IsSeeded m (add_swarm w given activate m)
  unfolding add_swarm prepare_swarm
  add_swarm-IsSeeded w given activate m c s z =
      prepared-IsSeeded w given activate m c s z (given.root_hash == 0 && not activate)
        (λ off. ground arith) (λ on. ground arith)
