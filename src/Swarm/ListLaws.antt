-- ===== src/Swarm/ListLaws.antt =====
-- The invariant of the state with a new swarm listed.
use libswift.Base.{
  ℕ, suc, ◌<◌, ◌≡◌, ◌≢◌, refl, sym, ap, arith, true, false, not, ◌&&◌, ◌||◌, Option, none, some,
  List, [], ◌∷◌, ◌++◌, length, set, ltb, ◌==◌, if◌then◌else◌, inl, inr, Bool-cases, length-append,
  length-set,
}
use mathlib.Core.Path.{subst}
use libswift.Swarm.State.{Transfers, SwarmData, Os, UnusedIndex, Manager, bucket, root_at, put}
use libswift.Swarm.Vector.{insert_at, member}
use libswift.Swarm.VectorLaws.{IsUnique}
use libswift.Swarm.Search.{location, slot_at}
use libswift.Swarm.Build.{is_some}
use libswift.Swarm.Add.{reuses, rest_of, numbered, list_swarm}
use libswift.Swarm.Find.{location_lem}
use libswift.Swarm.Directory.{slot_at-set, slot_at-append, slot_at-end, not-alive_of-fresh}
use libswift.Swarm.Enter.{IsListed-enter}
use libswift.Swarm.Invariant.{
  IsListed, Listed, Running, id_at, indices, IsConsistentBut, IsConsistent, put-other,
}

module _ {t : Transfers} where
  pub numbered-fields :
      (n : ℕ) (d : SwarmData t)
      → ((numbered n d).id ≡ some n)
        × ((numbered n d).root_hash ≡ d.root_hash)
        × ((numbered n d).active ≡ d.active)
        × (is_some (numbered n d).ft ≡ is_some d.ft)
  unfolding numbered is_some
  numbered-fields n d = ground arith

  module _ (w : Os t) (d : SwarmData t) (m : Manager t) where
    -- The new swarm at a number, with the two lists that hold the numbers.
    abbrev pub entered : ℕ → List (Option ℕ) → List UnusedIndex → Manager t
    entered n list unused =
        let b = bucket d.root_hash in
        let known = insert_at (location m d.root_hash) m.next (m.known_swarms b) in
        record (put m.next (numbered n d) m) {
          alive = λ p. p == m.next || m.alive p;
          next = suc m.next;
          known_swarms = λ i. if i == b then known else m.known_swarms i;
          swarm_list = list;
          unused_indices = unused;
        }

    abbrev pub after_reuse : Option ℕ → Manager t
    after_reuse none =
        entered (length m.swarm_list) (m.swarm_list ++ some m.next ∷ []) m.unused_indices
    after_reuse (some n) = entered n (set m.swarm_list n (some m.next)) (rest_of m.unused_indices)

    pub list_swarm_lem : list_swarm w d m ≡ after_reuse (reuses w m.unused_indices)
    unfolding list_swarm
    list_swarm_lem = refl

    reuses-vacant :
        (us : List UnusedIndex) (n : ℕ)
        → IsUnique (indices us)
        → reuses w us ≡ some n
        → (member n (indices us) ≡ true)
          × IsUnique (indices (rest_of us))
          × ((k : ℕ) → member k (indices (rest_of us)) ≡ (member k (indices us) && not (k == n)))
    unfolding reuses rest_of member
    reuses-vacant [] n u e = cc
    reuses-vacant (x ∷ us) n u e =
        let same : x.index ≡ n = ground arith in (ground arith, u.1, λ k. ground (arith, u.0))

    module _ (c : IsConsistent m) (nonzero : d.root_hash ≢ 0) (still : d.active ≡ false)
        (absent : (q : ℕ) → m.alive q ≡ true → root_at m q ≢ d.root_hash) where
      entered-Listed :
          (n : ℕ) (list : List (Option ℕ)) (unused : List UnusedIndex)
          → slot_at m.swarm_list n ≡ none
          → ((k : ℕ) → slot_at list k ≡ (if k == n then some m.next else slot_at m.swarm_list k))
          → ((k : ℕ)
              → member k (indices unused) ≡ (ltb k (length list) && not (is_some (slot_at list k))))
          → IsUnique (indices unused)
          → Listed (entered n list unused)
      entered-Listed n list unused empty slots vacant once =
          let f = numbered-fields n d in
          let m1 = entered n list unused in
          subst
            (λ k.
              IsListed (root_at m1) (id_at m1) m1.alive
                (λ i.
                  if i == bucket d.root_hash
                  then insert_at k m.next (m.known_swarms (bucket d.root_hash))
                  else m.known_swarms i)
                list unused (suc m.next))
            (sym (location_lem m c.listed d.root_hash))
            (IsListed-enter c.listed d.root_hash n nonzero absent (ground (arith, f.1))
              (λ q ne. ap (λ x. x.root_hash) (put-other m.next q (numbered n d) m ne))
              (ground (arith, f.0))
              (λ q ne. ap (λ x. x.id) (put-other m.next q (numbered n d) m ne)) list empty slots
              vacant once)

      after_reuse-Listed : (o : Option ℕ) → reuses w m.unused_indices ≡ o → Listed (after_reuse o)
      unfolding is_some
      after_reuse-Listed none e =
          let size = length m.swarm_list in
          entered-Listed size (m.swarm_list ++ some m.next ∷ []) m.unused_indices
            (slot_at-end m.swarm_list size (omega arith))
            (λ k. slot_at-append m.swarm_list k (some m.next))
            (λ k. ground (
              arith,
              c.listed.vacant k,
              slot_at-append m.swarm_list k (some m.next),
              length-append m.swarm_list (some m.next ∷ []),
            ))
            c.listed.once
      after_reuse-Listed (some n) e =
          let (here, once, rest) = reuses-vacant m.unused_indices n c.listed.once e in
          let inside : n < length m.swarm_list = ground (arith, c.listed.vacant n, here) in
          entered-Listed n (set m.swarm_list n (some m.next)) (rest_of m.unused_indices)
            (ground (arith, c.listed.vacant n, here))
            (λ k. slot_at-set m.swarm_list n k (some m.next) inside)
            (λ k. ground (
              arith,
              rest k,
              c.listed.vacant k,
              slot_at-set m.swarm_list n k (some m.next) inside,
              length-set m.swarm_list n (some m.next),
            ))
            once

      unborn : m.alive m.next ≡ false
      unborn = not-alive_of-fresh m.alive m.next (c.listed.fresh m.next)

      -- The new swarm is not active, and is not among the active ones.
      entered-Running :
          (n : ℕ) (list : List (Option ℕ)) (unused : List UnusedIndex)
          → Running (entered n list unused)
      entered-Running n list unused =
          let f = numbered-fields n d in
          record {
            marked = λ q. elim (Bool-cases (q == m.next)) [
              | inl e ↦
                  let same : q ≡ m.next = ground arith in
                  ground (arith, c.running.marked q, f.2, still, unborn, ap m.alive same)
              | inr e ↦ ground (arith, c.running.marked q)
            ];
            once = c.running.once;
            counted = c.running.counted;
            opened = λ q b i. ground (arith, c.running.opened q, f.2, still);
          }

      -- The new swarm may have its transfer already; all else is consistent.
      pub after_reuse-IsConsistentBut :
          (o : Option ℕ) → reuses w m.unused_indices ≡ o → IsConsistentBut m.next (after_reuse o)
      after_reuse-IsConsistentBut none e = record {
        listed = after_reuse-Listed none e;
        running =
            entered-Running (length m.swarm_list) (m.swarm_list ++ some m.next ∷ [])
              m.unused_indices;
        watched = c.watched;
        asleep = λ q ne b i. ground (arith, c.asleep q);
      }
      after_reuse-IsConsistentBut (some n) e = record {
        listed = after_reuse-Listed (some n) e;
        running = entered-Running n (set m.swarm_list n (some m.next)) (rest_of m.unused_indices);
        watched = c.watched;
        asleep = λ q ne b i. ground (arith, c.asleep q);
      }
