-- ===== src/Swarm/Oldest.antt =====
-- `DeactivateSwarm()` looks for the active swarm that has been unused for longest.
use libswift.Base.{
  ℕ, suc, ◌+◌, ◌≤◌, ◌<◌, ◌≡◌, ◌≢◌, arith, true, ◌&&◌, Option, none, some, List, [], ◌∷◌, ltb, ◌⊎◌,
  inl, inr, Bool-cases,
}
use libswift.Swarm.State.{Transfers, SwarmData}
use libswift.Swarm.Vector.{get_elem?, member}
use libswift.Swarm.Activate.{older, find_oldest}

module _ {t : Transfers} (swarm : ℕ → SwarmData t) (old : ℕ) where
  -- The best swarm so far may be put to sleep.
  abbrev IsIdle : Option (ℕ × ℕ) → Type 0
  IsIdle none = Unit
  IsIdle (some (b, l)) = (swarm b).latest_use < old

  older-IsIdle : (i x : ℕ) (best : Option (ℕ × ℕ)) → IsIdle best → IsIdle (older swarm old i x best)
  unfolding older
  older-IsIdle i x none h = elim (Bool-cases (ltb (swarm x).latest_use old)) [
    | inl e ↦ rw e (ground arith)
    | inr e ↦ rw e tt
  ]
  older-IsIdle i x (some (b, l)) h =
      elim (Bool-cases
        (ltb (swarm x).latest_use old && ltb (swarm x).latest_use (swarm b).latest_use)) [
          | inl e ↦ rw e (ground arith)
          | inr e ↦ rw e h
        ]

  pub find_oldest-idle :
      (i : ℕ) (ps : List ℕ) (best : Option (ℕ × ℕ)) (p loc : ℕ)
      → IsIdle best
      → find_oldest swarm old i ps best ≡ some (p, loc)
      → (swarm p).latest_use < old
  unfolding find_oldest
  find_oldest-idle i [] none p loc h e = cc
  find_oldest-idle i [] (some (b, l)) p loc h e = ground arith
  find_oldest-idle i (x ∷ ps) best p loc h e =
      find_oldest-idle (suc i) ps (older swarm old i x best) p loc (older-IsIdle i x best h) e

  find_oldest-best :
      (i : ℕ) (ps : List ℕ) (b l p loc : ℕ)
      → find_oldest swarm old i ps (some (b, l)) ≡ some (p, loc)
      → (swarm p).latest_use ≤ (swarm b).latest_use
  unfolding find_oldest older
  find_oldest-best i [] b l p loc e = ground arith
  find_oldest-best i (x ∷ ps) b l p loc e =
      ground (arith, find_oldest-best (suc i) ps b l p loc, find_oldest-best (suc i) ps x i p loc)

  -- No active swarm has been unused for longer.
  pub find_oldest-le :
      (i : ℕ) (ps : List ℕ) (best : Option (ℕ × ℕ)) (p loc q : ℕ)
      → IsIdle best
      → find_oldest swarm old i ps best ≡ some (p, loc)
      → member q ps ≡ true
      → (swarm p).latest_use ≤ (swarm q).latest_use
  unfolding find_oldest older member
  find_oldest-le i [] best p loc q h e m = cc
  find_oldest-le i (x ∷ ps) none p loc q h e m = ground (
    arith,
    find_oldest-idle (suc i) ps none p loc,
    find_oldest-best (suc i) ps x i p loc,
    find_oldest-le (suc i) ps none p loc q,
    find_oldest-le (suc i) ps (some (x, i)) p loc q,
  )
  find_oldest-le i (x ∷ ps) (some (b, l)) p loc q h e m = ground (
    arith,
    find_oldest-best (suc i) ps b l p loc,
    find_oldest-best (suc i) ps x i p loc,
    find_oldest-le (suc i) ps (some (b, l)) p loc q,
    find_oldest-le (suc i) ps (some (x, i)) p loc q,
  )

  find_oldest_stays :
      (i : ℕ) (ps : List ℕ) (b l : ℕ) → find_oldest swarm old i ps (some (b, l)) ≢ none
  unfolding find_oldest older
  find_oldest_stays i [] b l h = cc
  find_oldest_stays i (x ∷ ps) b l h =
      ground (arith, find_oldest_stays (suc i) ps b l, find_oldest_stays (suc i) ps x i)

  pub find_oldest-none :
      (i : ℕ) (ps : List ℕ) (best : Option (ℕ × ℕ)) (q : ℕ)
      → find_oldest swarm old i ps best ≡ none
      → member q ps ≡ true
      → old ≤ (swarm q).latest_use
  unfolding find_oldest older member
  find_oldest-none i [] best q e m = cc
  find_oldest-none i (x ∷ ps) none q e m =
      ground (arith, find_oldest_stays (suc i) ps x i, find_oldest-none (suc i) ps none q)
  find_oldest-none i (x ∷ ps) (some (b, l)) q e m = absurd (find_oldest_stays i (x ∷ ps) b l e)

  -- The place of what is found: it comes from the list, or was there before.
  find_oldest_place :
      (i : ℕ) (ps : List ℕ) (best : Option (ℕ × ℕ)) (p loc : ℕ)
      → find_oldest swarm old i ps best ≡ some (p, loc)
      → (best ≡ some (p, loc)) ⊎ ((j : ℕ) × (loc ≡ j + i) × (get_elem? ps j ≡ some p))
  unfolding find_oldest older get_elem?
  find_oldest_place i [] best p loc e = inl e
  find_oldest_place i (x ∷ ps) best p loc e =
      place_step best (find_oldest_place (suc i) ps (older swarm old i x best) p loc e)
    where
      place_step :
          (best' : Option (ℕ × ℕ))
          → (older swarm old i x best' ≡ some (p, loc))
            ⊎ ((j : ℕ) × (loc ≡ j + suc i) × (get_elem? ps j ≡ some p))
          → (best' ≡ some (p, loc)) ⊎ ((j : ℕ) × (loc ≡ j + i) × (get_elem? (x ∷ ps) j ≡ some p))
      place_step best' (inr r) = inr (suc r.0, omega (arith, r.1), r.2)
      place_step none (inl r) = inr (0, ground arith, ground arith)
      place_step (some (b, l)) (inl r) =
          elim (Bool-cases
            (ltb (swarm x).latest_use old && ltb (swarm x).latest_use (swarm b).latest_use)) [
              | inl y ↦ inr (0, ground arith, ground arith)
              | inr n ↦ inl (ground arith)
            ]

  pub find_oldest-get_elem? :
      (ps : List ℕ) (p loc : ℕ)
      → find_oldest swarm old 0 ps none ≡ some (p, loc)
      → get_elem? ps loc ≡ some p
  find_oldest-get_elem? ps p loc e = elim (find_oldest_place 0 ps none p loc e) [
    | inl n ↦ cc
    | inr r ↦ let same : loc ≡ r.0 = omega (arith, r.1) in rw same r.2
  ]
