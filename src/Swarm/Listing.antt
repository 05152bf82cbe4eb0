-- ===== src/Swarm/Listing.antt =====
-- `AddSwarm` lists a new swarm.
use libswift.Base.{
  ℕ, ◌<◌, ◌≡◌, ◌≢◌, refl, sym, ap, arith, true, false, Option, none, some, List, [], ◌∷◌, ◌++◌,
  length, set,
}
use mathlib.Core.Path.{subst}
use libswift.Swarm.State.{Transfers, SwarmData, Os, UnusedIndex, Manager, root_at}
use libswift.Swarm.Build.{is_some}
use libswift.Swarm.Add.{reuses, rest_of, numbered, list_swarm}
use libswift.Swarm.ListLaws.{
  numbered-fields, entered, after_reuse, list_swarm_lem, after_reuse-IsConsistentBut,
}
use libswift.Swarm.Invariant.{has_ft_at, IsConsistentBut, IsConsistent, Keeps, put-other}

-- What is left when a swarm is listed.
pub record IsEntered {t : Transfers} (d : SwarmData t) (m m' : Manager t) : Type 0 where
  pub good : IsConsistentBut m.next m'
  pub present : m'.alive m.next ≡ true
  pub root_new : root_at m' m.next ≡ d.root_hash
  pub opened : has_ft_at m' m.next ≡ is_some d.ft
  pub count : m'.active_swarm_count ≡ m.active_swarm_count
  pub limit : m'.max_active_swarms ≡ m.max_active_swarms
  pub keeps : Keeps m m'

module _ {t : Transfers} where
  entered-Keeps :
      (w : Os t) (d : SwarmData t) (m : Manager t) (n : ℕ) (list : List (Option ℕ))
      (unused : List UnusedIndex)
      → IsConsistent m
      → Keeps m (entered w d m n list unused)
  entered-Keeps w d m n list unused c =
      let other = λ (q : ℕ) (a : m.alive q ≡ true).
        let l : q < m.next = c.listed.fresh q a in
        put-other m.next q (numbered n d) m (omega arith) in
      record {
        alive = λ q a. ground arith;
        root = λ q a. ap (λ x. x.root_hash) (other q a);
        number = λ q a. ap (λ x. x.id) (other q a);
      }

  after_reuse-IsEntered :
      (w : Os t) (d : SwarmData t) (m : Manager t)
      → IsConsistent m
      → d.root_hash ≢ 0
      → d.active ≡ false
      → ((q : ℕ) → m.alive q ≡ true → root_at m q ≢ d.root_hash)
      → (o : Option ℕ) → reuses w m.unused_indices ≡ o
      → IsEntered d m (after_reuse w d m o)
  after_reuse-IsEntered w d m c nz still absent none e =
      let size = length m.swarm_list in
      let f = numbered-fields size d in
      record {
        good = after_reuse-IsConsistentBut w d m c nz still absent none e;
        present = ground arith;
        root_new = ground (arith, f.1);
        opened = ground (arith, f.3);
        count = refl;
        limit = refl;
        keeps = entered-Keeps w d m size (m.swarm_list ++ some m.next ∷ []) m.unused_indices c;
      }
  after_reuse-IsEntered w d m c nz still absent (some n) e =
      let f = numbered-fields n d in
      record {
        good = after_reuse-IsConsistentBut w d m c nz still absent (some n) e;
        present = ground arith;
        root_new = ground (arith, f.1);
        opened = ground (arith, f.3);
        count = refl;
        limit = refl;
        keeps =
            entered-Keeps w d m n (set m.swarm_list n (some m.next)) (rest_of m.unused_indices) c;
      }

  pub list_swarm-IsEntered :
      (w : Os t) (d : SwarmData t) (m : Manager t)
      → IsConsistent m
      → d.root_hash ≢ 0
      → d.active ≡ false
      → ((q : ℕ) → m.alive q ≡ true → root_at m q ≢ d.root_hash)
      → IsEntered d m (list_swarm w d m)
  list_swarm-IsEntered w d m c nz still absent =
      subst (IsEntered d m) (sym (list_swarm_lem w d m))
        (after_reuse-IsEntered w d m c nz still absent (reuses w m.unused_indices) refl)
