-- ===== src/Swarm/VectorLaws.antt =====
-- What the vectors hold after an element is put in, taken out or replaced by the last one.
use libswift.Base.{
  ℕ, zero, suc, ◌+◌, ◌≡◌, refl, ap, arith, true, false, not, ◌&&◌, ◌||◌, Bool-cases, inl, inr, none,
  some, List, [], ◌∷◌, ◌++◌, length, set, ◌==◌,
}
use libswift.Swarm.Vector.{
  get_elem?, insert_at, remove_at, pop_back, back, swap_out, index_from, member,
}

-- No element occurs twice.
abbrev pub IsUnique : List ℕ → Type 0
IsUnique [] = Unit
IsUnique (x ∷ xs) = (member x xs ≡ false) × IsUnique xs

pub member-insert_at :
    (q loc p : ℕ) (xs : List ℕ) → member q (insert_at loc p xs) ≡ (q == p || member q xs)
unfolding member insert_at
member-insert_at q loc p [] = ground arith
member-insert_at q zero p (x ∷ xs) = ground arith
member-insert_at q (suc loc) p (x ∷ xs) = ground (arith, member-insert_at q loc p xs)

pub member-append : (q p : ℕ) (xs : List ℕ) → member q (xs ++ p ∷ []) ≡ (q == p || member q xs)
unfolding member
member-append q p [] = ground arith
member-append q p (x ∷ xs) = ground (arith, member-append q p xs)

pub append-IsUnique :
    (p : ℕ) (xs : List ℕ) → IsUnique xs → member p xs ≡ false → IsUnique (xs ++ p ∷ [])
unfolding member
append-IsUnique p [] u h = (refl, tt)
append-IsUnique p (x ∷ xs) u h =
    (ground (arith, member-append x p xs), append-IsUnique p xs u.1 (ground arith))

pub member_of_get_elem? : (p k : ℕ) (xs : List ℕ) → get_elem? xs k ≡ some p → member p xs ≡ true
unfolding member get_elem?
member_of_get_elem? p k [] h = cc
member_of_get_elem? p zero (x ∷ xs) h = ground arith
member_of_get_elem? p (suc k) (x ∷ xs) h = ground (arith, member_of_get_elem? p k xs h)

pub member-remove_at :
    (q k p : ℕ) (xs : List ℕ)
    → IsUnique xs
    → get_elem? xs k ≡ some p
    → member q (remove_at k xs) ≡ (member q xs && not (q == p))
unfolding member get_elem? remove_at
member-remove_at q k p [] u h = cc
member-remove_at q zero p (x ∷ xs) u h = ground arith
member-remove_at q (suc k) p (x ∷ xs) u h =
    ground (arith, member-remove_at q k p xs u.1 h, member_of_get_elem? p k xs h)

member-pop_back :
    (q : ℕ) (x : ℕ) (xs : List ℕ)
    → member q (x ∷ xs) ≡ (q == back (x ∷ xs) || member q (pop_back (x ∷ xs)))
unfolding member pop_back back
member-pop_back q x [] = ground arith
member-pop_back q x (y ∷ ys) = ground (arith, member-pop_back q y ys)

member-back : (x : ℕ) (xs : List ℕ) → member (back (x ∷ xs)) (x ∷ xs) ≡ true
member-back x xs = ground (arith, member-pop_back (back (x ∷ xs)) x xs)

pop_back-IsUnique :
    (x : ℕ) (xs : List ℕ)
    → IsUnique (x ∷ xs)
    → IsUnique (pop_back (x ∷ xs)) × (member (back (x ∷ xs)) (pop_back (x ∷ xs)) ≡ false)
unfolding member pop_back back
pop_back-IsUnique x [] u = (tt, refl)
pop_back-IsUnique x (y ∷ ys) u =
    let ih = pop_back-IsUnique y ys u.1 in
    ((ground (arith, member-pop_back x y ys), ih.0), ground (arith, ih.1, member-back y ys))

swap_out-zero :
    (x y : ℕ) (ys : List ℕ) → swap_out 0 (x ∷ y ∷ ys) ≡ back (y ∷ ys) ∷ pop_back (y ∷ ys)
unfolding swap_out pop_back back
swap_out-zero x y ys = refl

set-cons : (k v y : ℕ) (ys : List ℕ) → (z : ℕ) × (zs : List ℕ) × (set (y ∷ ys) k v ≡ z ∷ zs)
set-cons zero v y ys = (v, ys, refl)
set-cons (suc k) v y ys = (y, set ys k v, refl)

swap_out-suc : (k x y : ℕ) (ys : List ℕ) → swap_out (suc k) (x ∷ y ∷ ys) ≡ x ∷ swap_out k (y ∷ ys)
unfolding swap_out pop_back back
swap_out-suc zero x y ys = refl
swap_out-suc (suc k) x y ys = refl

pub member-swap_out :
    (q k p : ℕ) (xs : List ℕ)
    → IsUnique xs
    → get_elem? xs k ≡ some p
    → member q (swap_out k xs) ≡ (member q xs && not (q == p))
unfolding member get_elem?
member-swap_out q k p [] u h = cc
member-swap_out q zero p (x ∷ []) u h = unfold swap_out pop_back in ground arith
member-swap_out q zero p (x ∷ y ∷ ys) u h =
    rw (swap_out-zero x y ys) (ground (arith, member-pop_back q y ys))
member-swap_out q (suc k) p (x ∷ []) u h = cc
member-swap_out q (suc k) p (x ∷ y ∷ ys) u h =
    rw (swap_out-suc k x y ys)
      (ground (arith, member-swap_out q k p (y ∷ ys) u.1 h, member_of_get_elem? p k (y ∷ ys) h))

pub swap_out-IsUnique :
    (k p : ℕ) (xs : List ℕ) → IsUnique xs → get_elem? xs k ≡ some p → IsUnique (swap_out k xs)
unfolding get_elem?
swap_out-IsUnique k p [] u h = cc
swap_out-IsUnique zero p (x ∷ []) u h = unfold swap_out pop_back in tt
swap_out-IsUnique zero p (x ∷ y ∷ ys) u h =
    rw (swap_out-zero x y ys) (let r = pop_back-IsUnique y ys u.1 in (r.1, r.0))
swap_out-IsUnique (suc k) p (x ∷ []) u h = cc
swap_out-IsUnique (suc k) p (x ∷ y ∷ ys) u h = rw (swap_out-suc k x y ys) (
    (
      ground (arith, u.0, member-swap_out x k p (y ∷ ys) u.1 h),
      swap_out-IsUnique k p (y ∷ ys) u.1 h,
    ))

length-pop_back : (x : ℕ) (xs : List ℕ) → length (x ∷ xs) ≡ suc (length (pop_back (x ∷ xs)))
unfolding pop_back
length-pop_back x [] = refl
length-pop_back x (y ∷ ys) = ap suc (length-pop_back y ys)

pub length-swap_out :
    (k p : ℕ) (xs : List ℕ) → get_elem? xs k ≡ some p → length xs ≡ suc (length (swap_out k xs))
unfolding get_elem?
length-swap_out k p [] h = cc
length-swap_out zero p (x ∷ []) h = unfold swap_out pop_back in refl
length-swap_out zero p (x ∷ y ∷ ys) h = rw (swap_out-zero x y ys) (ap suc (length-pop_back y ys))
length-swap_out (suc k) p (x ∷ []) h = cc
length-swap_out (suc k) p (x ∷ y ∷ ys) h =
    rw (swap_out-suc k x y ys) (ap suc (length-swap_out k p (y ∷ ys) h))

-- Where the search for an element ends.
pub index_from-get_elem? :
    (i p loc : ℕ) (xs : List ℕ)
    → index_from i p xs ≡ some loc
    → (j : ℕ) × (loc ≡ j + i) × (get_elem? xs j ≡ some p)
unfolding index_from get_elem?
index_from-get_elem? i p loc [] h = cc
index_from-get_elem? i p loc (x ∷ xs) h = index_step (index_from-get_elem? (suc i) p loc xs) h
  where
    index_step :
        (index_from (suc i) p xs ≡ some loc
          → (j : ℕ) × (loc ≡ j + suc i) × (get_elem? xs j ≡ some p))
        → index_from i p (x ∷ xs) ≡ some loc
        → (j : ℕ) × (loc ≡ j + i) × (get_elem? (x ∷ xs) j ≡ some p)
    index_step ih e = elim (Bool-cases (x == p)) [
      | inl hit ↦ (0, ground arith, ground arith)
      | inr miss ↦ let r = ih (ground arith) in (suc r.0, omega (arith, r.1), r.2)
    ]

pub index_from-none : (i p : ℕ) (xs : List ℕ) → index_from i p xs ≡ none → member p xs ≡ false
unfolding index_from member
index_from-none i p [] h = refl
index_from-none i p (x ∷ xs) h = ground (arith, index_from-none (suc i) p xs)
