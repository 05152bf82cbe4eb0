-- ===== src/Swarm/RemoveLaws.antt =====
-- `RemoveSwarm` of a root hash that a swarm has.
use libswift.Base.{
  ℕ, ◌-◌, ◌≡◌, ◌≢◌, refl, sym, ◌∙◌, ap, arith, Bool, true, false, Option, Option-cases, none, some,
  List, [], ◌∷◌, ◌++◌, set, ◌==◌, if◌then◌else◌, inl, inr, Bool-cases, ==_iff, ==-eq_false,
}
use mathlib.Core.Path.{subst}
use libswift.Swarm.State.{Text, RootHash, Transfers, Os, Manager, bucket, root_at, put}
use libswift.Swarm.Vector.{get_elem?, remove_at, index_from, swap_out}
use libswift.Swarm.VectorLaws.{
  member-swap_out, swap_out-IsUnique, length-swap_out, index_from-get_elem?, index_from-none,
}
use libswift.Swarm.Search.{location, get_swarm_data, find_swarm}
use libswift.Swarm.Remove.{drop_active, free_index, files_of, remove_at_address, remove_swarm}
use libswift.Swarm.Find.{get_swarm_data_known, find_swarm-none}
use libswift.Swarm.Directory.{IsListed-leave}
use libswift.Swarm.Invariant.{IsListed-ext, Listed, Running, Sleeps, Watched, IsConsistent}

-- The swarm is not known any more; every other swarm is as it was.
abbrev pub Spared : {t : Transfers} → ℕ → Manager t → Manager t → Type 0
Spared p m m' =
    (m'.alive p ≡ false) × ((q : ℕ) → q ≢ p → (m'.alive q ≡ m.alive q) × (m'.swarm q ≡ m.swarm q))

module _ {t : Transfers} (w : Os t) (p : ℕ) (m : Manager t) where
  -- The removal from the active swarms, from what the search found.
  abbrev dropped : Option ℕ → Manager t
  dropped none = m
  dropped (some loc) = record (put p (record (m.swarm p) { active = false }) m) {
    active_swarms = swap_out loc m.active_swarms;
    active_swarm_count = m.active_swarm_count - 1;
  }

  drop_active_lem : drop_active p m ≡ dropped (index_from 0 p m.active_swarms)
  unfolding drop_active
  drop_active_lem = refl

  -- The rest of the removal, for a swarm that has the root hash and the number `n`.
  abbrev removed : ℕ → Manager t → Manager t
  removed n m1 =
      let b = bucket (root_at m p) in
      let rest = remove_at (location m (root_at m p)) (m.known_swarms b) in
      record m1 {
        known_swarms = λ i. if i == b then rest else m.known_swarms i;
        swarm_list = set m1.swarm_list n none;
        unused_indices = m1.unused_indices ++ record { index = n; since = w.now } ∷ [];
        alive = λ q. if q == p then false else m.alive q;
      }

  remove_at_address_lem :
      (n : ℕ)
      → (m.swarm p).id ≡ some n
      → remove_at_address w (root_at m p) p m ≡ removed n (drop_active p m)
  unfolding remove_at_address free_index
  remove_at_address_lem n e = rw (e, (==_iff (root_at m p) (root_at m p)).1 refl)

  module _ (c : IsConsistent m) (a : m.alive p ≡ true) (n : ℕ)
      (named : (m.swarm p).id ≡ some n) where
    at_place : get_elem? (m.known_swarms (bucket (root_at m p))) (location m (root_at m p)) ≡ some p
    at_place = unfold get_swarm_data in get_swarm_data_known m c.listed p a

    removed-Listed : (o : Option ℕ) → Listed (removed n (dropped o))
    removed-Listed none =
        IsListed-leave c.listed p n (location m (root_at m p)) (bucket (root_at m p)) w.now a named
          refl at_place
    removed-Listed (some loc) =
        IsListed-ext (λ q. ground arith) (λ q. ground arith)
          (IsListed-leave c.listed p n (location m (root_at m p)) (bucket (root_at m p)) w.now a
            named refl at_place)

    removed-Running :
        (o : Option ℕ) → index_from 0 p m.active_swarms ≡ o → Running (removed n (dropped o))
    removed-Running none e = record {
      marked = λ q. ground (arith, c.running.marked q, index_from-none 0 p m.active_swarms e);
      once = c.running.once;
      counted = c.running.counted;
      opened = λ q b i. c.running.opened q (ground arith) i;
    }
    removed-Running (some loc) e =
        let (j, off, found) = index_from-get_elem? 0 p loc m.active_swarms e in
        let same : loc ≡ j = omega (arith, off) in
        let at : get_elem? m.active_swarms loc ≡ some p = rw same found in
        record {
          marked = λ q. ground (
            arith,
            c.running.marked q,
            member-swap_out q loc p m.active_swarms c.running.once at,
          );
          once = swap_out-IsUnique loc p m.active_swarms c.running.once at;
          counted = omega (arith, c.running.counted, length-swap_out loc p m.active_swarms at);
          opened = λ q b i. ground (arith, c.running.opened q);
        }

    removed-Watched : (o : Option ℕ) → Watched (removed n (dropped o))
    removed-Watched none = c.watched
    removed-Watched (some loc) = ground (arith, c.watched)

    removed-Sleeps : (o : Option ℕ) (q : ℕ) → Sleeps (removed n (dropped o)) q
    removed-Sleeps none q b i = c.asleep q (ground arith) i
    removed-Sleeps (some loc) q b i = ground (arith, c.asleep q)

    removed-IsConsistent :
        (o : Option ℕ) → index_from 0 p m.active_swarms ≡ o → IsConsistent (removed n (dropped o))
    removed-IsConsistent o e = record {
      listed = removed-Listed o;
      running = removed-Running o e;
      watched = removed-Watched o;
      asleep = removed-Sleeps o;
    }

    removed-Spared : (o : Option ℕ) → Spared p m (removed n (dropped o))
    removed-Spared none = (ground arith, λ q ne. (ground arith, refl))
    removed-Spared (some loc) = (ground arith, λ q ne. (ground arith, rw (==-eq_false q p ne)))

    remove-good : let m' = remove_at_address w (root_at m p) p m in IsConsistent m' × Spared p m m'
    remove-good =
        let o = index_from 0 p m.active_swarms in
        let whole : remove_at_address w (root_at m p) p m ≡ removed n (dropped o) =
          remove_at_address_lem n named ∙ ap (removed n) drop_active_lem in
        subst (λ m'. IsConsistent m' × Spared p m m') (sym whole)
          (removed-IsConsistent o refl, removed-Spared o)

module _ {t : Transfers} where
  numbered_known :
      (m : Manager t) (p : ℕ)
      → IsConsistent m
      → m.alive p ≡ true
      → (n : ℕ) × ((m.swarm p).id ≡ some n)
  numbered_known m p c a = elim (Option-cases (m.swarm p).id) [
    | inl e ↦ absurd (ground (arith, c.listed.numbered p a, e))
    | inr (n, e) ↦ (n, e)
  ]

  -- In a consistent state two swarms do not share a root hash.
  pub root-injective :
      (m : Manager t) (p q : ℕ)
      → IsConsistent m
      → m.alive p ≡ true
      → m.alive q ≡ true
      → root_at m p ≡ root_at m q
      → p ≡ q
  root-injective m p q c a b e =
      let one = get_swarm_data_known m c.listed p a in
      let two = get_swarm_data_known m c.listed q b in
      let same : some p ≡ some q = sym one ∙ ap (get_swarm_data m) e ∙ two in ground arith

  -- What is left when a swarm is removed: the state is consistent, the swarm is not known any more and
  -- its root hash finds nothing, and every other swarm is as it was.
  abbrev pub IsRemoved : ℕ → Manager t → Manager t → Type 0
  IsRemoved p m m' = IsConsistent m' × (find_swarm m' (root_at m p) ≡ none) × Spared p m m'

  -- The rest of `RemoveSwarm`, after the search.
  abbrev pub after_lookup : Os t → RootHash → Manager t → Option ℕ → Manager t
  after_lookup w h m none = m
  after_lookup w h m (some p) = remove_at_address w h p m

  pub remove_swarm_lem :
      (w : Os t) (h : RootHash) (rs rc : Bool) (m : Manager t)
      → (remove_swarm w h rs rc m).0 ≡ after_lookup w h m (get_swarm_data m h)
  unfolding remove_swarm
  remove_swarm_lem w h rs rc m = after_choice (get_swarm_data m h)
    where
      after_choice :
          (o : Option ℕ)
          → (elim o as (λ x. Manager t × List Text) [
            | none ↦ (m, [])
            | some p ↦ (remove_at_address w h p m, files_of rs rc (m.swarm p))
          ]).0
            ≡ after_lookup w h m o
      after_choice none = refl
      after_choice (some p) = refl

  -- In a consistent state RemoveSwarm of the root hash of a known swarm leaves a consistent state, in
  -- which the swarm is not known and its root hash finds nothing. Every other swarm is as it was.
  pub remove_swarm-IsRemoved :
      (w : Os t) (remove_state remove_content : Bool) (p : ℕ) (m : Manager t)
      → IsConsistent m
      → m.alive p ≡ true
      → IsRemoved p m (remove_swarm w (root_at m p) remove_state remove_content m).0
  remove_swarm-IsRemoved w rs rc p m c a =
      let (n, named) = numbered_known m p c a in
      let (good, spared) = remove-good w p m c a n named in
      let m' = remove_at_address w (root_at m p) p m in
      let unknown : find_swarm m' (root_at m p) ≡ none =
        find_swarm-none m' good.listed (root_at m p)
          (λ q b e. absurd (still_there m m' p q c a spared b e)) in
      subst (IsRemoved p m)
        (sym (
          remove_swarm_lem w (root_at m p) rs rc m
          ∙ ap (after_lookup w (root_at m p) m) (get_swarm_data_known m c.listed p a)))
        (good, unknown, spared)
    where
      still_there :
          (m m' : Manager t) (p q : ℕ)
          → IsConsistent m
          → m.alive p ≡ true
          → Spared p m m'
          → m'.alive q ≡ true
          → root_at m' q ≡ root_at m p
          → ⊥
      still_there m m' p q c a s b e = elim (Bool-cases (q == p)) [
        | inl y ↦
            let same : q ≡ p = ground arith in absurd (ground (arith, s.0, b, ap m'.alive same))
        | inr z ↦
            let ne : q ≢ p = ground arith in
            let (alive_q, swarm_q) = s.1 q ne in
            let same : root_at m q ≡ root_at m p = ap (λ d. d.root_hash) (sym swarm_q) ∙ e in
            ne (root-injective m q p c (sym alive_q ∙ b) a same)
      ]
