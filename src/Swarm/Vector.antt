-- ===== src/Swarm/Vector.antt =====
-- `std::vector` as the manager uses it: an element is looked up, put in between, taken out, or
-- replaced by the last one.
use libswift.Base.{
  ℕ, zero, suc, Bool, false, ◌||◌, Option, none, some, List, [], ◌∷◌, ◌==◌, if◌then◌else◌, set,
}

module _ {A : Type 0} where
  -- `list[i]`
  unfoldable pub get_elem? : List A → ℕ → Option A
  get_elem? [] i = none
  get_elem? (x ∷ xs) zero = some x
  get_elem? (x ∷ xs) (suc i) = get_elem? xs i

  -- `push_back`, and the elements from `loc` on moved up by one.
  unfoldable pub insert_at : ℕ → A → List A → List A
  insert_at loc v [] = v ∷ []
  insert_at zero v (x ∷ xs) = v ∷ x ∷ xs
  insert_at (suc loc) v (x ∷ xs) = x ∷ insert_at loc v xs

  -- The elements after `loc` moved down by one, and `pop_back`.
  unfoldable pub remove_at : ℕ → List A → List A
  remove_at loc [] = []
  remove_at zero (x ∷ xs) = xs
  remove_at (suc loc) (x ∷ xs) = x ∷ remove_at loc xs

  -- `pop_back`
  unfoldable pub pop_back : List A → List A
  pop_back [] = []
  pop_back (x ∷ []) = []
  pop_back (x ∷ y ∷ ys) = x ∷ pop_back (y ∷ ys)

-- `list[list.size() - 1]`
unfoldable pub back : List ℕ → ℕ
back [] = 0
back (x ∷ []) = x
back (x ∷ y ∷ ys) = back (y ∷ ys)

-- The last element takes the place of the one at `loc`, and `pop_back`.
unfoldable pub swap_out : ℕ → List ℕ → List ℕ
unfolding pop_back back
swap_out loc xs = pop_back (set xs loc (back xs))

-- Where an element is first.
unfoldable pub index_from : ℕ → ℕ → List ℕ → Option ℕ
index_from i p [] = none
index_from i p (x ∷ xs) = if x == p then some i else index_from (suc i) p xs

-- Whether an element occurs.
unfoldable pub member : ℕ → List ℕ → Bool
member p [] = false
member p (x ∷ xs) = p == x || member p xs
