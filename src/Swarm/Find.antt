-- ===== src/Swarm/Find.antt =====
-- What the searches for a swarm find in a consistent state.
use libswift.Base.{
  ℕ, ◌≡◌, ◌≢◌, ◌↔◌, refl, sym, ◌∙◌, ap, arith, true, ◌&&◌, Option, Option-cases, none, some, map,
  ◌==◌, inl, inr,
}
use libswift.Base.Int.{pos}
use libswift.Swarm.State.{RootHash, Transfers, Os, Manager, bucket, root_at}
use libswift.Swarm.Vector.{get_elem?, member}
use libswift.Swarm.VectorLaws.{member_of_get_elem?}
use libswift.Swarm.Location.{get_swarm_location-eq-lower_bound}
use libswift.Swarm.Buckets.{get_elem?-lower_bound}
use libswift.Swarm.Search.{lower_bound, location, get_swarm_data, find_swarm, find_id}
use libswift.Swarm.Activate.{activate_at, activate_swarm}
use libswift.Swarm.Wake.{IsActivated, activate_at-IsActivated}
use libswift.Swarm.Success.{CanActivate, activate_at_iff}
use libswift.Swarm.Invariant.{Listed, id_at, IsConsistent}

module _ {t : Transfers} (m : Manager t) (l : Listed m) where
  -- The place of a hash, by the linear search.
  pub location_lem :
      (h : RootHash) → location m h ≡ lower_bound (map (root_at m) (m.known_swarms (bucket h))) h
  unfolding location
  location_lem h = get_swarm_location-eq-lower_bound _ h (l.rises (bucket h))

  -- What is listed at any place of a bucket exists, and belongs there.
  pub known-alive :
      (i k p : ℕ)
      → get_elem? (m.known_swarms i) k ≡ some p
      → (m.alive p ≡ true) × (bucket (root_at m p) ≡ i)
  known-alive i k p e =
      let both : (m.alive p && bucket (root_at m p) == i) ≡ true =
        sym (l.found i p) ∙ member_of_get_elem? p k (m.known_swarms i) e in
      (ground arith, ground arith)

  pub get_swarm_data_known : (p : ℕ) → m.alive p ≡ true → get_swarm_data m (root_at m p) ≡ some p
  unfolding get_swarm_data
  get_swarm_data_known p a =
      let h = root_at m p in
      let here : member p (m.known_swarms (bucket h)) ≡ true =
        l.found (bucket h) p ∙ ground arith in
      ap (get_elem? (m.known_swarms (bucket h))) (location_lem h)
      ∙ get_elem?-lower_bound (root_at m) p (m.known_swarms (bucket h)) (l.rises (bucket h)) here

  find_sound : (h p : ℕ) → find_swarm m h ≡ some p → (m.alive p ≡ true) × (root_at m p ≡ h)
  unfolding find_swarm get_swarm_data
  find_sound h p e = elim (Option-cases (get_elem? (m.known_swarms (bucket h)) (location m h))) [
    | inl n ↦ absurd (ground (arith, n))
    | inr (q, s) ↦ let known = known-alive (bucket h) (location m h) q s in ground (arith, known.0)
  ]

  -- In a consistent state FindSwarm(rootHash) gives a swarm exactly if the swarm is known and has that
  -- root hash.
  pub find_swarm_iff :
      (h : RootHash) (p : ℕ) → (find_swarm m h ≡ some p) ↔ ((m.alive p ≡ true) × (root_at m p ≡ h))
  unfolding find_swarm
  find_swarm_iff h p = (find_sound h p, λ (a, e). ground (arith, get_swarm_data_known p a))

  pub find_swarm-none :
      (h : RootHash) → ((p : ℕ) → m.alive p ≡ true → root_at m p ≢ h) → find_swarm m h ≡ none
  find_swarm-none h no_one = elim (Option-cases (find_swarm m h)) [
    | inl e ↦ e
    | inr (p, e) ↦ let s = find_sound h p e in absurd (no_one p s.0 s.1)
  ]

  -- FindSwarm(id) gives a swarm exactly if the swarm is known and has that number.
  pub find_id_iff :
      (id p : ℕ) → (find_id m (pos id) ≡ some p) ↔ ((m.alive p ≡ true) × (id_at m p ≡ some id))
  unfolding find_id
  find_id_iff id p = (λ e. l.held id p e, λ (a, e). let n = l.numbered p a in rw e at n)

module _ {t : Transfers} where
  -- The rest of `ActivateSwarm`, after the search.
  abbrev after_find : Os t → Manager t → Option ℕ → Manager t × Option ℕ
  after_find w m none = (m, none)
  after_find w m (some p) = activate_at w p m

  activate_swarm_lem :
      (w : Os t) (h : RootHash) (m : Manager t)
      → activate_swarm w h m ≡ after_find w m (find_swarm m h)
  unfolding activate_swarm
  activate_swarm_lem w h m = refl

  -- In a consistent state ActivateSwarm of the root hash of a known swarm leaves a consistent state. The
  -- swarm is given back and is active, or NULL is given, and the swarm is not active and has no transfer.
  -- It is given back exactly if it was active, or its transfer works, a new one if need be, and there is
  -- room for it, or an active swarm is idle. No more swarms are active than the maximum or than before,
  -- and all swarms that were known keep their root hashes and numbers.
  pub activate_swarm-IsActivated :
      (w : Os t) (p : ℕ) (m : Manager t)
      → IsConsistent m
      → m.alive p ≡ true
      → let r = activate_swarm w (root_at m p) m in
        IsActivated p m r × ((r.1 ≡ some p) ↔ CanActivate w p m)
  activate_swarm-IsActivated w p m c a =
      let found = (find_swarm_iff m c.listed (root_at m p) p).1 (a, refl) in
      rw (activate_swarm_lem w (root_at m p) m ∙ ap (after_find w m) found) (
        activate_at-IsActivated w p m
            (record {
              listed = c.listed;
              running = c.running;
              watched = c.watched;
              asleep = λ q ne. c.asleep q;
            })
            a,
        activate_at_iff w p m c.running,
      )

  -- A root hash that is not found activates nothing.
  pub activate_swarm-none :
      (w : Os t) (h : RootHash) (m : Manager t)
      → find_swarm m h ≡ none
      → activate_swarm w h m ≡ (m, none)
  activate_swarm-none w h m e = activate_swarm_lem w h m ∙ ap (after_find w m) e
