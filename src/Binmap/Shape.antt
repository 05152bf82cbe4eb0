-- ===== src/Binmap/Shape.antt =====
-- What the cells of a binmap stand for: a binary tree with bitmaps at its ends, and the set of base
-- bins that the tree holds. A bitmap stands for every 32 base bins under its half. Nothing here is
-- taken from the code.
use libswift.Base.{
  refl, arith, ltb-eq_true, ltb-eq_false, ℕ, zero, suc, ◌/◌, ◌%◌, ◌^◌, ◌≤◌, ◌<◌, ◌≡◌, ◌≢◌, Bool,
  true, false, ltb, ◌&&◌, ◌==◌, if◌then◌else◌,
}
use libswift.Bin.Layout.{node}
use libswift.Binmap.Digits.{digit}
use libswift.Binmap.Heap.{Cell, Binmap}

-- One half of a cell: a bitmap, or the cell `ref` with its two halves.
pub data Half : Type 0 where
  bits : ℕ → Half
  sub : ℕ → Half → Half → Half

-- Whether the half over `2 ^ k` base bins holds base bin `i`.
abbrev pub holds : ℕ → Half → ℕ → Bool
holds k (bits b) i = digit b (i % 32)
holds zero (sub ref a c) i = false
holds (suc k) (sub ref a c) i =
    let in_left = holds k a i in
    let in_right = holds k c i in if i / 2 ^ k % 2 == 0 then in_left else in_right

-- The cells hold the half: its flag and its word are `r` and `w`.
abbrev pub Stores : (ℕ → Cell) → Bool → ℕ → Half → Type 0
Stores f r w (bits b) = (r ≡ false) × (w ≡ b) × (b < 2 ^ 32)
Stores f r w (sub ref a c) =
    (r ≡ true)
    × (w ≡ ref)
    × Stores f (f ref).is_left_ref (f ref).left a
    × Stores f (f ref).is_right_ref (f ref).right c

-- Bitmaps stand at layer 5 or above.
abbrev pub IsDeep : ℕ → Half → Type 0
IsDeep k (bits b) = 5 ≤ k
IsDeep zero (sub ref a c) = ⊥
IsDeep (suc k) (sub ref a c) = IsDeep k a × IsDeep k c

-- Two halves are not one and the same bitmap.
abbrev pub AreMixed : Half → Half → Type 0
AreMixed (bits x) (bits y) = x ≢ y
AreMixed _ _ = Unit

-- No cell below the root could give way to a bitmap.
abbrev pub IsPacked : Half → Type 0
IsPacked (bits b) = Unit
IsPacked (sub ref a c) = IsPacked a × IsPacked c × AreMixed a c

-- The binmap stands for the two halves `a` and `c` of a root over `2 ^ suc k` base bins.
pub record IsTree (s : Binmap) (k : ℕ) (a c : Half) : Type 0 where
  pub root : s.root_bin ≡ node (suc k) 0
  pub low : 5 ≤ k
  pub high : k < 63
  pub left : Stores s.cell (s.cell 0).is_left_ref (s.cell 0).left a
  pub right : Stores s.cell (s.cell 0).is_right_ref (s.cell 0).right c
  pub left_deep : IsDeep k a
  pub right_deep : IsDeep k c
  pub left_packed : IsPacked a
  pub right_packed : IsPacked c

-- The set that the binmap stands for: nothing outside the root's interval.
abbrev pub member : ℕ → Half → Half → ℕ → Bool
member k a c i = ltb i (2 ^ suc k) && holds (suc k) (sub 0 a c) i

pub member-inside :
    (k : ℕ) (a c : Half) (i : ℕ) → i < 2 ^ suc k → member k a c i ≡ holds (suc k) (sub 0 a c) i
member-inside k a c i h = rw (ltb-eq_true i (2 ^ suc k) h) refl

pub member-outside : (k : ℕ) (a c : Half) (i : ℕ) → 2 ^ suc k ≤ i → member k a c i ≡ false
member-outside k a c i h = rw (ltb-eq_false i (2 ^ suc k) (omega arith)) refl
