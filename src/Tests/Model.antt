-- ===== src/Tests/Model.antt =====
-- A concrete hash, without collisions, and a concrete set of base bins, on which the theorems about
-- the hash tree are applied.
use libswift.Base.{
  ℕ, zero, suc, ◌+◌, ◌-◌, ◌*◌, ◌^◌, ◌<◌, ◌≡◌, ◌↔◌, refl, ap, sym, ◌∙◌, arith, Bool, true, false,
  not, ◌&&◌, ◌||◌, List, [], ◌∷◌, ◌==◌, ==_iff, leb, ltb, holds_below, holds_below_sound,
}
use libswift.Bin.{Bin, base_offset, base_length}
use libswift.Bin.Layout.{node, InTree}
use libswift.Bin.Interval.{base_offset-node, base_length-node}
use libswift.BinSet.{BinSet, covers}
use libswift.Hashing.{Hashing, IsCollisionFree}

pub data Digest : Type 0 where
  nil : Digest
  leaf : ℕ → Digest
  pair : Digest → Digest → Digest

abbrev pub same : Digest → Digest → Bool
same nil nil = true
same (leaf x) (leaf y) = x == y
same (pair a b) (pair c d) = same a c && same b d
same _ _ = false

pub same_sound : (a b : Digest) → same a b ≡ true → a ≡ b
same_sound nil nil e = refl
same_sound (leaf x) (leaf y) e = ap leaf ((==_iff x y).0 e)
same_sound (pair a b) (pair c d) e = grind (arith, same_sound a c, same_sound b d)
same_sound nil (leaf y) e = absurd (ground arith)
same_sound nil (pair c d) e = absurd (ground arith)
same_sound (leaf x) nil e = absurd (ground arith)
same_sound (leaf x) (pair c d) e = absurd (ground arith)
same_sound (pair a b) nil e = absurd (ground arith)
same_sound (pair a b) (leaf y) e = absurd (ground arith)

pub same_refl : (a : Digest) → same a a ≡ true
same_refl nil = refl
same_refl (leaf x) = (==_iff x x).1 refl
same_refl (pair a b) = rw (same_refl a, same_refl b)

-- The digest of data is its first byte.
abbrev pub digest : List ℕ → Digest
digest [] = leaf 0
digest (x ∷ xs) = leaf (suc x)

abbrev pub digests : Hashing
digests = record {
  Hash = Digest;
  eq = same;
  eq_iff = λ a b. (same_sound a b, λ e. ap (same a) (sym e) ∙ same_refl a);
  zero_hash = nil;
  pair = pair;
  of_data = digest;
}

pub digests-IsCollisionFree : IsCollisionFree digests
digests-IsCollisionFree a b c d e = (cc, cc)

-- A set as its test of base bins; a bin is asked base bin by base bin.
unfoldable pub all_of : (ℕ → Bool) → Bin → Bool
unfolding holds_below base_offset base_length
all_of p v = holds_below (base_length v) (λ i. p (base_offset v + i))

below_all : (n : ℕ) (p : ℕ → Bool) → ((i : ℕ) → i < n → p i ≡ true) → holds_below n p ≡ true
unfolding holds_below
below_all zero p f = refl
below_all (suc n) p f = rw (f n (omega arith)) (below_all n p (λ i h. f i (omega arith)))

pub all_of_iff :
    (p : ℕ → Bool) (l o : ℕ)
    → InTree l o
    → (all_of p (node l o) ≡ true) ↔ ((i : ℕ) → covers l o i ≡ true → p i ≡ true)
unfolding all_of
all_of_iff p l o t =
    rw (base_offset-node l o t, base_length-node l o t)
      (
        λ e i c.
            let d = i - o * 2 ^ l in
            let back : o * 2 ^ l + d ≡ i = ground arith in
            ap p (sym back) ∙ holds_below_sound (2 ^ l) (λ j. p (o * 2 ^ l + j)) d e (ground arith),
        λ f. below_all (2 ^ l) (λ j. p (o * 2 ^ l + j)) (λ j h. f (o * 2 ^ l + j) (ground arith)),
      )

unfoldable pub insert : (ℕ → Bool) → Bin → ℕ → Bool
unfolding base_offset base_length
insert s v i = leb (base_offset v) i && ltb i (base_offset v + base_length v) || s i

pub none_iff :
    (s : ℕ → Bool) (l o : ℕ)
    → InTree l o
    → (all_of (λ i. not (s i)) (node l o) ≡ true) ↔ ((i : ℕ) → covers l o i ≡ true → s i ≡ false)
none_iff s l o t = (
  λ e i c. un_not (s i) ((all_of_iff (λ j. not (s j)) l o t).0 e i c),
  λ f. (all_of_iff (λ j. not (s j)) l o t).1 (λ i c. ap not (f i c)),
)
  where
    un_not : (x : Bool) → not x ≡ true → x ≡ false
    un_not x e = ground arith

abbrev pub sets : BinSet
sets = record {
  Set = ℕ → Bool;
  empty = λ i. false;
  set = insert;
  is_empty = λ s v. all_of (λ i. not (s i)) v;
  is_filled = all_of;
  mem = λ s i. s i;
  IsSound = λ s. Unit;
  is_empty_iff = λ s _. none_iff s;
}
