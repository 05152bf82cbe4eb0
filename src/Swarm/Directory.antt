-- ===== src/Swarm/Directory.antt =====
-- The directories when a swarm leaves them or enters them.
use libswift.Base.{
  ℕ, zero, suc, ◌≤◌, ◌<◌, ◌≡◌, refl, ap, arith, Bool, true, false, ◌&&◌, Option, Option-cases, none,
  some, List, [], ◌∷◌, ◌++◌, length, map, set, ◌==◌, if◌then◌else◌, inl, inr, Bool-cases,
  length-set,
}
use mathlib.Core.Path.{ap₂}
use libswift.Swarm.State.{RootHash, UnusedIndex, bucket}
use libswift.Swarm.Vector.{get_elem?, remove_at, member}
use libswift.Swarm.VectorLaws.{member-append, append-IsUnique, member-remove_at}
use libswift.Swarm.Location.{Rises}
use libswift.Swarm.Buckets.{Rises-IsUnique, map-remove_at, remove_at-Rises}
use libswift.Swarm.Search.{slot_at}
use libswift.Swarm.Build.{is_some}
use libswift.Swarm.Invariant.{IsListed, indices, slot_of}

pub slot_at-lt : (list : List (Option ℕ)) (k p : ℕ) → slot_at list k ≡ some p → k < length list
unfolding slot_at
slot_at-lt [] k p h = cc
slot_at-lt (x ∷ xs) zero p h = omega arith
slot_at-lt (x ∷ xs) (suc k) p h = omega (arith, slot_at-lt xs k p h)

pub slot_at-set :
    (list : List (Option ℕ)) (n k : ℕ) (v : Option ℕ)
    → n < length list
    → slot_at (set list n v) k ≡ (if k == n then v else slot_at list k)
unfolding slot_at
slot_at-set [] n k v h = absurd (omega arith)
slot_at-set (x ∷ xs) zero zero v h = refl
slot_at-set (x ∷ xs) zero (suc k) v h = ground arith
slot_at-set (x ∷ xs) (suc n) zero v h = ground arith
slot_at-set (x ∷ xs) (suc n) (suc k) v h = ground (arith, slot_at-set xs n k v)

length-set-option :
    (list : List (Option ℕ)) (n : ℕ) (v : Option ℕ) → length (set list n v) ≡ length list
length-set-option list n v = length-set list n v

pub slot_at-append :
    (list : List (Option ℕ)) (k : ℕ) (v : Option ℕ)
    → slot_at (list ++ v ∷ []) k ≡ (if k == length list then v else slot_at list k)
unfolding slot_at
slot_at-append [] zero v = refl
slot_at-append [] (suc k) v = ground arith
slot_at-append (x ∷ xs) zero v = ground arith
slot_at-append (x ∷ xs) (suc k) v = ground (arith, slot_at-append xs k v)

pub slot_at-end : (list : List (Option ℕ)) (k : ℕ) → length list ≤ k → slot_at list k ≡ none
unfolding slot_at
slot_at-end [] k h = refl
slot_at-end (x ∷ xs) zero h = absurd (omega arith)
slot_at-end (x ∷ xs) (suc k) h = slot_at-end xs k (omega arith)

indices-append :
    (us : List UnusedIndex) (u : UnusedIndex) → indices (us ++ u ∷ []) ≡ indices us ++ u.index ∷ []
indices-append [] u = refl
indices-append (v ∷ us) u = ap (◌∷◌ v.index) (indices-append us u)

module _ {root : ℕ → RootHash} {id : ℕ → Option ℕ} {alive : ℕ → Bool} {known : ℕ → List ℕ}
    {list : List (Option ℕ)} {unused : List UnusedIndex} {next : ℕ}
    (l : IsListed root id alive known list unused next) where
  module _ (p n loc b since : ℕ) (a : alive p ≡ true) (named : id p ≡ some n)
      (home : bucket (root p) ≡ b) (at : get_elem? (known b) loc ≡ some p) where
    abbrev gone : ℕ → Bool
    gone q = if q == p then false else alive q

    there : slot_at list n ≡ some p
    there = let s = l.numbered p a in rw named at s

    away-found :
        (i q : ℕ)
        → member q (if i == b then remove_at loc (known b) else known i)
          ≡ (gone q && bucket (root q) == i)
    away-found i q = ground (
      arith,
      l.found i q,
      l.found b q,
      member-remove_at q loc p (known b) (Rises-IsUnique root (known b) (l.rises b)) at,
    )

    away-Rises : (i : ℕ) → Rises (map root (if i == b then remove_at loc (known b) else known i))
    away-Rises i = elim (Bool-cases (i == b)) [
      | inl e ↦ rw e (
          rw (map-remove_at root loc (known b))
            (remove_at-Rises loc (map root (known b)) (l.rises b)))
      | inr e ↦ rw e (l.rises i)
    ]

    away-numbered : (q : ℕ) → gone q ≡ true → slot_of (set list n none) (id q) ≡ some q
    away-numbered q g = elim (Option-cases (id q)) [
      | inl e ↦ absurd (ground (arith, l.numbered q, e))
      | inr (k, e) ↦ rw e (
          ground
            (arith, slot_at-set list n k none (slot_at-lt list n p there), l.numbered q, e, there))
    ]

    away-held : (k q : ℕ) → slot_at (set list n none) k ≡ some q → (gone q ≡ true) × (id q ≡ some k)
    away-held k q h =
        ground (arith, slot_at-set list n k none (slot_at-lt list n p there), l.held k q, named)

    -- A swarm leaves its bucket and its number, which is free then.
    pub IsListed-leave :
        IsListed root id gone
          (λ i. if i == b then remove_at loc (known b) else known i)
          (set list n none)
          (unused ++ record { index = n; since = since } ∷ [])
          next
    unfolding is_some
    IsListed-leave = record {
      found = away-found;
      rises = away-Rises;
      nonzero = λ q g. l.nonzero q (ground arith);
      numbered = away-numbered;
      held = away-held;
      vacant = λ k. rw (indices-append unused (record { index = n; since = since })) (
          ground (
            arith,
            member-append k n (indices unused),
            l.vacant k,
            slot_at-set list n k none (slot_at-lt list n p there),
            length-set-option list n none,
            slot_at-lt list n p there,
          ));
      once =
          rw (indices-append unused (record { index = n; since = since }))
            (append-IsUnique n (indices unused) l.once (ground (arith, l.vacant n, there)));
      fresh = λ q g. l.fresh q (ground arith);
    }

-- Lists that agree on their members.
pub map-agree :
    (f g : ℕ → ℕ) (xs : List ℕ) → ((q : ℕ) → member q xs ≡ true → f q ≡ g q) → map f xs ≡ map g xs
unfolding member
map-agree f g [] h = refl
map-agree f g (x ∷ xs) h =
    ap₂ ◌∷◌ (h x (ground arith)) (map-agree f g xs (λ q m. h q (ground (arith, m))))

pub not-alive_of-fresh :
    (alive : ℕ → Bool) (next : ℕ) → (alive next ≡ true → next < next) → alive next ≡ false
not-alive_of-fresh alive next h = elim (Bool-cases (alive next)) [
  | inl e ↦ absurd (omega (arith, h e))
  | inr e ↦ e
]
