-- ===== src/Swarm/Unknown.antt =====
-- `RemoveSwarm` of a root hash that no swarm has.
use libswift.Base.{
  ℕ, ◌≡◌, ◌≢◌, refl, sym, ◌∙◌, ap, arith, Bool, true, false, Option, Option-cases, none, some, List,
  map, ◌==◌, if◌then◌else◌, inl, inr,
}
use mathlib.Core.Path.{subst, fun_ext}
use libswift.Swarm.State.{RootHash, Transfers, Os, Manager, bucket, root_at}
use libswift.Swarm.Vector.{get_elem?, index_from}
use libswift.Swarm.Search.{get_swarm_location, location, get_swarm_data, find_swarm}
use libswift.Swarm.Remove.{drop_active, free_index, remove_at_address, remove_swarm}
use libswift.Swarm.RemoveLaws.{after_lookup, remove_swarm_lem}
use libswift.Swarm.Find.{find_swarm_iff, known-alive}
use libswift.Swarm.Invariant.{IsConsistent}

-- The search depends on the root hashes and the buckets only.
abbrev choose : (ℕ → RootHash) → RootHash → Option ℕ → Option ℕ
choose root h none = none
choose root h (some p) = if root p == h then some p else none

abbrev find_with : (ℕ → RootHash) → (ℕ → List ℕ) → RootHash → Option ℕ
find_with root known h =
    choose root h
      (get_elem? (known (bucket h)) (get_swarm_location (map root (known (bucket h))) h))

module _ {t : Transfers} where
  find_swarm_with :
      (m : Manager t) (h : RootHash) → find_swarm m h ≡ find_with (root_at m) m.known_swarms h
  unfolding find_swarm get_swarm_data location
  find_swarm_with m h = refl

  find_swarm-ext :
      (m m' : Manager t) (h : RootHash)
      → ((q : ℕ) → root_at m q ≡ root_at m' q)
      → m.known_swarms ≡ m'.known_swarms
      → find_swarm m' h ≡ find_swarm m h
  find_swarm-ext m m' h roots known =
      find_swarm_with m' h
      ∙ sym (ap (λ f. find_with f m'.known_swarms h) (fun_ext roots))
      ∙ sym (ap (λ k. find_with (root_at m) k h) known)
      ∙ sym (find_swarm_with m h)

  -- The removal of a swarm whose root hash is not the one asked for leaves the buckets as they are.
  stray :
      (w : Os t) (h : RootHash) (p : ℕ) (m : Manager t)
      → root_at m p ≢ h
      → let m' = remove_at_address w h p m in
        (m'.alive p ≡ false)
        × (m'.known_swarms ≡ m.known_swarms)
        × ((q : ℕ) → root_at m q ≡ root_at m' q)
  unfolding remove_at_address free_index drop_active
  stray w h p m ne = elim (Option-cases (index_from 0 p m.active_swarms)) [
    | inl e ↦ (ground (arith, e), ground (arith, e), λ q. ground (arith, e))
    | inr (loc, e) ↦ (ground (arith, e), ground (arith, e), λ q. ground (arith, e))
  ]

  -- In a consistent state, let no swarm have the root hash h, but let the bucket of h hold a swarm whose
  -- hash is above h; let p be the first one of them, at the place where the binary search for h ends.
  -- Then RemoveSwarm(h) deletes p, but p stays in its bucket, and FindSwarm of its root hash gives the
  -- deleted swarm.
  pub remove_swarm-unknown :
      (w : Os t) (h : RootHash) (remove_state remove_content : Bool) (p : ℕ) (m : Manager t)
      → IsConsistent m
      → ((q : ℕ) → m.alive q ≡ true → root_at m q ≢ h)
      → get_swarm_data m h ≡ some p
      → let m' = (remove_swarm w h remove_state remove_content m).0 in
        (m.alive p ≡ true) × (m'.alive p ≡ false) × (find_swarm m' (root_at m p) ≡ some p)
  remove_swarm-unknown w h rs rc p m c no_one e =
      let a : m.alive p ≡ true =
        unfold get_swarm_data in (known-alive m c.listed (bucket h) (location m h) p e).0 in
      let s = stray w h p m (no_one p a) in
      let m' = remove_at_address w h p m in
      let whole = remove_swarm_lem w h rs rc m ∙ ap (after_lookup w h m) e in
      subst (λ r. (m.alive p ≡ true) × (r.alive p ≡ false) × (find_swarm r (root_at m p) ≡ some p))
        (sym whole)
        (
          a,
          s.0,
          find_swarm-ext m m' (root_at m p) s.2 (sym s.1)
              ∙ (find_swarm_iff m c.listed (root_at m p) p).1 (a, refl),
        )
