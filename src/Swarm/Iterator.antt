-- ===== src/Swarm/Iterator.antt =====
-- `SwarmManager::Iterator`, which goes over the numbers of the swarms.
use libswift.Base.{
  ℕ, zero, suc, ◌<◌, ◌≡◌, refl, sym, ◌∙◌, ap, arith, Option, none, some, List, [], ◌∷◌, map, length,
  ◌==◌, if◌then◌else◌,
}
use libswift.Swarm.State.{Transfers, Manager}
use libswift.Swarm.Search.{taken_from, slot_at, get_transfer_descriptors}

-- The first place from `i` on that holds a swarm, or the end.
unfoldable pub seek : List (Option ℕ) → ℕ → ℕ
seek [] i = i
seek (none ∷ ps) zero = suc (seek ps zero)
seek (some p ∷ ps) zero = zero
seek (p ∷ ps) (suc i) = suc (seek ps i)

module _ {t : Transfers} (m : Manager t) where
  unfoldable pub begin : ℕ
  unfolding seek
  begin = seek m.swarm_list 0

  unfoldable pub end : ℕ
  end = length m.swarm_list

  -- `operator++`
  unfoldable pub next_swarm : ℕ → ℕ
  unfolding seek
  next_swarm i = seek m.swarm_list (suc i)

  -- `operator*`
  unfoldable pub swarm_at : ℕ → Option ℕ
  unfolding slot_at
  swarm_at i = slot_at m.swarm_list i

-- The places that a loop from `i` to the end of the list visits.
visits : ℕ → List (Option ℕ) → ℕ → List ℕ
visits zero ps i = []
visits (suc fuel) ps i =
    let rest = visits fuel ps (seek ps (suc i)) in if i == length ps then [] else i ∷ rest

visits-cons :
    (fuel : ℕ) (p : Option ℕ) (ps : List (Option ℕ)) (i : ℕ)
    → visits fuel (p ∷ ps) (suc i) ≡ map suc (visits fuel ps i)
unfolding visits seek
visits-cons zero p ps i = refl
visits-cons (suc fuel) none ps i = ground (arith, visits-cons fuel none ps (seek ps (suc i)))
visits-cons (suc fuel) (some q) ps i =
    ground (arith, visits-cons fuel (some q) ps (seek ps (suc i)))

taken_from-suc : (i : ℕ) (ps : List (Option ℕ)) → taken_from (suc i) ps ≡ map suc (taken_from i ps)
unfolding taken_from
taken_from-suc i [] = refl
taken_from-suc i (none ∷ ps) = taken_from-suc (suc i) ps
taken_from-suc i (some p ∷ ps) = ap (◌∷◌ (suc i)) (taken_from-suc (suc i) ps)

visits_lem :
    (fuel : ℕ) (ps : List (Option ℕ))
    → length ps < fuel
    → visits fuel ps (seek ps 0) ≡ taken_from 0 ps
unfolding visits seek taken_from
visits_lem zero ps h = absurd (omega arith)
visits_lem (suc fuel) [] h = refl
visits_lem (suc fuel) (none ∷ ps) h =
    visits-cons (suc fuel) none ps (seek ps 0)
    ∙ ap (map suc) (visits_lem (suc fuel) ps (omega arith))
    ∙ sym (taken_from-suc 0 ps)
visits_lem (suc fuel) (some p ∷ ps) h = ground (
  arith,
  visits-cons fuel (some p) ps (seek ps 0),
  visits_lem fuel ps (omega arith),
  taken_from-suc 0 ps,
)

-- The loop from `begin()` to `end()` visits the numbers that GetTransferDescriptors lists, in order.
iterator-visits :
    {t : Transfers} (m : Manager t)
    → visits (suc (length m.swarm_list)) m.swarm_list (begin m) ≡ get_transfer_descriptors m
unfolding begin get_transfer_descriptors
iterator-visits m = visits_lem (suc (length m.swarm_list)) m.swarm_list (omega arith)
