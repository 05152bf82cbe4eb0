-- ===== src/Swarm/Buckets.antt =====
-- One list of `knownSwarms_`, its swarms in the order of their root hashes.
use libswift.Base.{
  ℕ, zero, suc, ◌<◌, ◌≡◌, ◌≢◌, refl, ap, arith, true, some, List, [], ◌∷◌, map, ltb, Bool-cases,
  inl, inr,
}
use libswift.Swarm.Search.{lower_bound}
use libswift.Swarm.Vector.{get_elem?, insert_at, remove_at, member}
use libswift.Swarm.VectorLaws.{IsUnique}
use libswift.Swarm.Location.{Above, Rises}

pub map-insert_at :
    (f : ℕ → ℕ) (k p : ℕ) (xs : List ℕ) → map f (insert_at k p xs) ≡ insert_at k (f p) (map f xs)
unfolding insert_at
map-insert_at f k p [] = refl
map-insert_at f zero p (x ∷ xs) = refl
map-insert_at f (suc k) p (x ∷ xs) = ap (◌∷◌ (f x)) (map-insert_at f k p xs)

pub map-remove_at :
    (f : ℕ → ℕ) (k : ℕ) (xs : List ℕ) → map f (remove_at k xs) ≡ remove_at k (map f xs)
unfolding remove_at
map-remove_at f k [] = refl
map-remove_at f zero (x ∷ xs) = refl
map-remove_at f (suc k) (x ∷ xs) = ap (◌∷◌ (f x)) (map-remove_at f k xs)

-- The element at a place gives the one of the mapped list.
pub get_elem?-map :
    (f : ℕ → ℕ) (k p : ℕ) (xs : List ℕ)
    → get_elem? xs k ≡ some p
    → get_elem? (map f xs) k ≡ some (f p)
unfolding get_elem?
get_elem?-map f k p [] h = cc
get_elem?-map f zero p (x ∷ xs) h = ground arith
get_elem?-map f (suc k) p (x ∷ xs) h = get_elem?-map f k p xs h

pub get_elem?-map_inv :
    (f : ℕ → ℕ) (k v : ℕ) (xs : List ℕ)
    → get_elem? (map f xs) k ≡ some v
    → (p : ℕ) × (get_elem? xs k ≡ some p) × (f p ≡ v)
unfolding get_elem?
get_elem?-map_inv f k v [] h = cc
get_elem?-map_inv f zero v (x ∷ xs) h = (x, refl, ground arith)
get_elem?-map_inv f (suc k) v (x ∷ xs) h = get_elem?-map_inv f k v xs h

Above-member :
    (f : ℕ → ℕ) (h p : ℕ) (xs : List ℕ) → Above h (map f xs) → member p xs ≡ true → h < f p
unfolding member
Above-member f h p [] a m = cc
Above-member f h p (x ∷ xs) a m = ground (arith, Above-member f h p xs a.1)

pub Rises-IsUnique : (f : ℕ → ℕ) (xs : List ℕ) → Rises (map f xs) → IsUnique xs
unfolding member
Rises-IsUnique f [] r = tt
Rises-IsUnique f (x ∷ xs) r =
    (ground (arith, Above-member f (f x) x xs r.0), Rises-IsUnique f xs r.1)

-- A swarm of the list is at the place of its hash.
pub get_elem?-lower_bound :
    (f : ℕ → ℕ) (p : ℕ) (xs : List ℕ)
    → Rises (map f xs)
    → member p xs ≡ true
    → get_elem? xs (lower_bound (map f xs) (f p)) ≡ some p
unfolding get_elem? member lower_bound
get_elem?-lower_bound f p [] r m = cc
get_elem?-lower_bound f p (x ∷ xs) r m =
    ground (arith, Above-member f (f x) p xs r.0, get_elem?-lower_bound f p xs r.1)

Above-insert_at : (x k h : ℕ) (hs : List ℕ) → x < h → Above x hs → Above x (insert_at k h hs)
unfolding insert_at
Above-insert_at x k h [] l a = (l, tt)
Above-insert_at x zero h (y ∷ hs) l a = (l, a)
Above-insert_at x (suc k) h (y ∷ hs) l a = (a.0, Above-insert_at x k h hs l a.1)

Above-lt : (x y : ℕ) (hs : List ℕ) → x < y → Above y hs → Above x hs
Above-lt x y [] l a = tt
Above-lt x y (z ∷ hs) l a = (omega arith, Above-lt x y hs l a.1)

-- A new hash put in at its place keeps the order.
pub insert_at-Rises :
    (h : ℕ) (hs : List ℕ)
    → Rises hs
    → get_elem? hs (lower_bound hs h) ≢ some h
    → Rises (insert_at (lower_bound hs h) h hs)
unfolding insert_at lower_bound get_elem?
insert_at-Rises h [] r ne = (tt, tt)
insert_at-Rises h (x ∷ hs) r ne = elim (Bool-cases (ltb x h)) [
  | inl e ↦ rw e (
    Above-insert_at x (lower_bound hs h) h hs (ground arith) r.0,
    insert_at-Rises h hs r.1 (rw e at ne),
  )
  | inr e ↦ rw e (let l : h < x = ground arith in ((l, Above-lt h x hs l r.0), r))
]

Above-remove_at : (x k : ℕ) (hs : List ℕ) → Above x hs → Above x (remove_at k hs)
unfolding remove_at
Above-remove_at x k [] a = tt
Above-remove_at x zero (y ∷ hs) a = a.1
Above-remove_at x (suc k) (y ∷ hs) a = (a.0, Above-remove_at x k hs a.1)

pub remove_at-Rises : (k : ℕ) (hs : List ℕ) → Rises hs → Rises (remove_at k hs)
unfolding remove_at
remove_at-Rises k [] r = tt
remove_at-Rises zero (x ∷ hs) r = r.1
remove_at-Rises (suc k) (x ∷ hs) r = (Above-remove_at x k hs r.0, remove_at-Rises k hs r.1)
