-- ===== src/Swarm/Location.antt =====
-- `GetSwarmLocation` halves the list, and gives the place where the hash is or belongs.
use libswift.Base.{ℕ, zero, suc, ◌+◌, ◌/◌, ◌≤◌, ◌<◌, ◌≡◌, arith, List, [], ◌∷◌, length, get_or}
use libswift.Swarm.State.{RootHash}
use libswift.Swarm.Search.{location_loop, get_swarm_location, lower_bound}

-- Every number of a list is above the given one.
abbrev pub Above : ℕ → List ℕ → Type 0
Above x [] = Unit
Above x (y ∷ ys) = (x < y) × Above x ys

-- The numbers of a list rise.
abbrev pub Rises : List ℕ → Type 0
Rises [] = Unit
Rises (x ∷ xs) = Above x xs × Rises xs

pub Above-get_or : (x : ℕ) (ys : List ℕ) (i : ℕ) → Above x ys → i < length ys → x < get_or ys i 0
Above-get_or x [] i a h = absurd (omega arith)
Above-get_or x (y ∷ ys) zero a h = a.0
Above-get_or x (y ∷ ys) (suc i) a h = Above-get_or x ys i a.1 (omega arith)

pub lower_bound-le : (hs : List RootHash) (target : ℕ) → lower_bound hs target ≤ length hs
unfolding lower_bound
lower_bound-le [] target = omega arith
lower_bound-le (x ∷ hs) target = ground (arith, lower_bound-le hs target)

lower_bound_below :
    (hs : List RootHash) (target i : ℕ)
    → Rises hs
    → i < length hs
    → get_or hs i 0 < target
    → suc i ≤ lower_bound hs target
unfolding lower_bound
lower_bound_below [] target i r h b = absurd (omega arith)
lower_bound_below (x ∷ hs) target zero r h b = ground arith
lower_bound_below (x ∷ hs) target (suc i) r h b =
    ground (arith, Above-get_or x hs i r.0, lower_bound_below hs target i r.1)

lower_bound_above :
    (hs : List RootHash) (target i : ℕ)
    → Rises hs
    → i < length hs
    → target ≤ get_or hs i 0
    → lower_bound hs target ≤ i
unfolding lower_bound
lower_bound_above [] target i r h b = absurd (omega arith)
lower_bound_above (x ∷ hs) target zero r h b = ground arith
lower_bound_above (x ∷ hs) target (suc i) r h b =
    ground (arith, Above-get_or x hs i r.0, lower_bound_above hs target i r.1)

pub lower_bound_at :
    (hs : List RootHash) (target i : ℕ)
    → Rises hs
    → i < length hs
    → get_or hs i 0 ≡ target
    → lower_bound hs target ≡ i
unfolding lower_bound
lower_bound_at [] target i r h b = absurd (omega arith)
lower_bound_at (x ∷ hs) target zero r h b = ground arith
lower_bound_at (x ∷ hs) target (suc i) r h b =
    ground (arith, Above-get_or x hs i r.0, lower_bound_at hs target i r.1)

location_loop_lem :
    (fuel : ℕ) (hs : List RootHash) (target low high : ℕ)
    → Rises hs
    → high ≤ low + fuel
    → high ≤ length hs
    → low ≤ lower_bound hs target
    → lower_bound hs target ≤ high
    → location_loop fuel hs target low high ≡ lower_bound hs target
unfolding location_loop
location_loop_lem zero hs target low high r f l a b = omega arith
location_loop_lem (suc fuel) hs target low high r f l a b =
    let mid = (low + high) / 2 in
    ground (
      arith,
      lower_bound_below hs target mid r,
      lower_bound_above hs target mid r,
      lower_bound_at hs target mid r,
      location_loop_lem fuel hs target (mid + 1) high r,
      location_loop_lem fuel hs target low mid r,
    )

-- In a list of rising root hashes, the binary search of GetSwarmLocation ends at the place that a
-- linear search gives: the first one whose hash is not below the target, or the end of the list.
pub get_swarm_location-eq-lower_bound :
    (hs : List RootHash) (target : RootHash)
    → Rises hs
    → get_swarm_location hs target ≡ lower_bound hs target
unfolding get_swarm_location
get_swarm_location-eq-lower_bound hs target r =
    location_loop_lem (length hs) hs target 0 (length hs) r (omega arith) (omega arith)
      (omega arith) (lower_bound-le hs target)
