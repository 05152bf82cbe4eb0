-- ===== src/HashTree/Sound.antt =====
-- A walk that ends in agreement, without breaking off at a zero hash, proves every hash on its way:
-- those of the bins it climbed and those of their siblings are the Merkle hashes.
use native.Mathlib.Decide.{ℕ_discrete}
use mathlib.Core.Path.{subst}
use libswift.Base.{
  ℕ, zero, suc, ◌+◌, ◌*◌, ◌/◌, ◌%◌, ◌<◌, ◌≡◌, ◌≢◌, inl, inr, Bool, false, ◌||◌, refl, ap, sym, ◌∙◌,
  arith, Bool-cases, ==_iff, ==-eq_false,
}
use libswift.Bin.{Bin}
use libswift.Bin.Layout.{node, InTree}
use libswift.Bin.Family.{buddy}
use libswift.BinSet.{BinSet}
use libswift.Hashing.{Hashing, IsCollisionFree}
use libswift.HashTree.Walk.{Walked, write, walk}
use libswift.HashTree.Spec.{merkle, Under, HasRoom}
use libswift.HashTree.Climb.{
  node_layer, goes, under-InTree, first, second, walk-stops, walk-breaks, walk-goes,
}

module _ (h : Hashing) (b : BinSet) where
  open h use {Hash, eq, zero_hash, pair}

  pub write_self : (hs : Bin → Hash) (v : Bin) (a : Hash) → write h b hs v a v ≡ a
  write_self hs v a = rw ((==_iff v v).1 refl)

  pub write_other :
      (hs : Bin → Hash) (v : Bin) (a : Hash) (w : Bin) → w ≢ v → write h b hs v a w ≡ hs w
  write_other hs v a w ne = rw (==-eq_false w v ne)

  module _ (leaf : ℕ → Hash) where
    -- The hashes of a bin, of its ancestors up to the peak, and of their siblings are right.
    abbrev pub TrueUp : (Bin → Hash) → ℕ → ℕ → ℕ → Type 0
    TrueUp hs zero l o = hs (node l o) ≡ merkle h leaf l o
    TrueUp hs (suc d) l o =
        (hs (node l o) ≡ merkle h leaf l o)
        × (hs (node l (buddy o)) ≡ merkle h leaf l (buddy o))
        × TrueUp hs d (suc l) (o / 2)

    pub TrueUp-head :
        (d : ℕ) (hs : Bin → Hash) (l o : ℕ) → TrueUp hs d l o → hs (node l o) ≡ merkle h leaf l o
    TrueUp-head zero hs l o t = t
    TrueUp-head (suc d) hs l o t = t.0

    module _ (ack verified : b.Set) (m n : ℕ) (room : HasRoom m n) where
      -- Wherever the walk may stop, the hashes from there up are right.
      abbrev pub StopTrue : (Bin → Hash) → ℕ → ℕ → ℕ → Type 0
      StopTrue hs zero l o = hs (node l o) ≡ merkle h leaf l o
      StopTrue hs (suc d) l o =
          (goes h b ack verified m n room l o ≡ false → TrueUp hs (suc d) l o)
          × StopTrue hs d (suc l) (o / 2)

      -- The other child of the parent is in the tree too.
      buddy-InTree : (d l o : ℕ) → Under (suc d) m n l o → InTree l (buddy o)
      buddy-InTree d l o u =
          let half : buddy o / 2 ≡ o / 2 = omega arith in
          under-InTree h b ack verified m n room (suc d) l (buddy o)
            (subst (λ (x : ℕ). Under d m n (suc l) x) (sym half) u)

      module _ (k i : ℕ) (a : Hash) (t : InTree k i) where
        -- A write below does not change what is above.
        write_below :
            (hs : Bin → Hash) (l o : ℕ)
            → InTree l o
            → k < l
            → write h b hs (node k i) a (node l o) ≡ hs (node l o)
        write_below hs l o u lt =
            write_other hs (node k i) a (node l o)
              (λ e. absurd (let same : l ≡ k = node_layer l o k i u t e in omega arith))

        TrueUp-write :
            (d : ℕ) (hs : Bin → Hash) (l o : ℕ)
            → Under d m n l o
            → k < l
            → TrueUp hs d l o
            → TrueUp (write h b hs (node k i) a) d l o
        TrueUp-write zero hs l o u lt x =
            write_below hs l o (under-InTree h b ack verified m n room zero l o u) lt ∙ x
        TrueUp-write (suc d) hs l o u lt x = (
          write_below hs l o (under-InTree h b ack verified m n room (suc d) l o u) lt ∙ x.0,
          write_below hs l (buddy o) (buddy-InTree d l o u) lt ∙ x.1,
          TrueUp-write d hs (suc l) (o / 2) u (omega arith) x.2,
        )

        pub StopTrue-write :
            (d : ℕ) (hs : Bin → Hash) (l o : ℕ)
            → Under d m n l o
            → k < l
            → StopTrue hs d l o
            → StopTrue (write h b hs (node k i) a) d l o
        StopTrue-write zero hs l o u lt x =
            write_below hs l o (under-InTree h b ack verified m n room zero l o u) lt ∙ x
        StopTrue-write (suc d) hs l o u lt x = (
          λ e. TrueUp-write (suc d) hs l o u lt (x.0 e),
          StopTrue-write d hs (suc l) (o / 2) u (omega arith) x.1,
        )

      abbrev run : ℕ → (Bin → Hash) → ℕ → ℕ → Hash → Walked h b
      run f hs l o a = walk h b f hs ack verified (node m n) (node l o) a

      module _ (l o : ℕ) (hs : Bin → Hash) (a : Hash) where
        -- The two outcomes of the zero test.
        abbrev zero_found : Bool
        zero_found =
            eq (first h b ack verified m n room hs a 0 l o) zero_hash
            || eq (second h b ack verified m n room hs a 0 l o) zero_hash

      -- At the peak the walk stops.
      goes-peak : (l o : ℕ) → Under zero m n l o → goes h b ack verified m n room l o ≡ false
      goes-peak l o u =
          let same : node l o ≡ node m n = ap (λ (x : ℕ). node x o) u.0 ∙ ap (node m) u.1 in
          rw ((==_iff (node l o) (node m n)).1 same)

      stops :
          (f l o : ℕ) (hs : Bin → Hash) (a : Hash)
          → goes h b ack verified m n room l o ≡ false
          → run (suc f) hs l o a
            ≡ record { hashes = hs; stop = node l o; uphash = a; broke = false }
      stops f l o hs a = walk-stops h b ack verified m n room hs a f l o

      -- The walk writes at the bins that it climbs, and nowhere below its start.
      walk_keeps :
          (f d l o : ℕ) (hs : Bin → Hash) (a : Hash) (k i : ℕ)
          → Under d m n l o
          → InTree k i
          → k < l
          → (run f hs l o a).hashes (node k i) ≡ hs (node k i)
      walk_keeps zero d l o hs a k i u t lt = unfold walk in refl
      walk_keeps (suc f) zero l o hs a k i u t lt =
          ap (λ (w : Walked h b). w.hashes (node k i)) (stops f l o hs a (goes-peak l o u))
      walk_keeps (suc f) (suc d) l o hs a k i u t lt =
          let hs' = write h b hs (node l o) a in
          let tl = under-InTree h b ack verified m n room (suc d) l o u in
          let here : hs' (node k i) ≡ hs (node k i) =
            write_other hs (node l o) a (node k i)
              (λ e. absurd (let same : k ≡ l = node_layer k i l o t tl e in omega arith)) in
          elim (Bool-cases (goes h b ack verified m n room l o)) [
            | inr stop ↦ ap (λ (w : Walked h b). w.hashes (node k i)) (stops f l o hs a stop)
            | inl go ↦ elim (Bool-cases (zero_found l o hs a)) [
              | inl z ↦
                  ap (λ (w : Walked h b). w.hashes (node k i))
                    (walk-breaks h b ack verified m n room hs a f l o d u go z)
                  ∙ here
              | inr z ↦
                  ap (λ (w : Walked h b). w.hashes (node k i))
                    (walk-goes h b ack verified m n room hs a f l o d u go z)
                  ∙ walk_keeps f d (suc l) (o / 2) hs' _ k i u t (omega arith)
                  ∙ here
            ]
          ]

      module _ (free : IsCollisionFree h) where
        -- The hashes of two children whose pair is right are right.
        children_true :
            (l o : ℕ) (hs : Bin → Hash)
            → pair (hs (node l (2 * (o / 2)))) (hs (node l (2 * (o / 2) + 1)))
              ≡ merkle h leaf (suc l) (o / 2)
            → (hs (node l o) ≡ merkle h leaf l o)
              × (hs (node l (buddy o)) ≡ merkle h leaf l (buddy o))
        children_true l o hs e =
            let (el, er) = free _ _ _ _ e in
            let R = λ (x : ℕ). hs (node l x) ≡ merkle h leaf l x in
            elim (ℕ_discrete (o % 2) 0) [
              | yes even ↦
                  let a : 2 * (o / 2) ≡ o = omega arith in
                  let c : 2 * (o / 2) + 1 ≡ buddy o = omega arith in (subst R a el, subst R c er)
              | no odd ↦
                  let a : 2 * (o / 2) ≡ buddy o = omega arith in
                  let c : 2 * (o / 2) + 1 ≡ o = omega arith in (subst R c er, subst R a el)
            ]

        -- What a walk that agrees proves of the hash that it started with, and of the tree.
        pub walk_sound :
            (f d l o : ℕ) (hs : Bin → Hash) (a : Hash)
            → d < f
            → Under d m n l o
            → StopTrue hs d l o
            → (run f hs l o a).broke ≡ false
            → (run f hs l o a).uphash ≡ (run f hs l o a).hashes (run f hs l o a).stop
            → (a ≡ merkle h leaf l o) × TrueUp (run f hs l o a).hashes d l o
        walk_sound zero d l o hs a lt u st nb ok = absurd (omega arith)
        walk_sound (suc f) zero l o hs a lt u st nb ok =
            let e = stops f l o hs a (goes-peak l o u) in
            let R = λ (w : Walked h b).
              w.uphash ≡ w.hashes w.stop → (a ≡ merkle h leaf l o) × TrueUp w.hashes zero l o in
            subst R (sym e) (λ q. (q ∙ st, st)) ok
        walk_sound (suc f) (suc d) l o hs a lt u st nb ok =
            let hs' = write h b hs (node l o) a in
            let tl = under-InTree h b ack verified m n room (suc d) l o u in
            let Claim = λ (w : Walked h b).
              w.broke ≡ false
              → w.uphash ≡ w.hashes w.stop
              → (a ≡ merkle h leaf l o) × TrueUp w.hashes (suc d) l o in
            elim (Bool-cases (goes h b ack verified m n room l o)) [
              | inr stop ↦
                  subst Claim (sym (stops f l o hs a stop)) (λ _ q. (q ∙ (st.0 stop).0, st.0 stop))
                    nb ok
              | inl go ↦ elim (Bool-cases (zero_found l o hs a)) [
                | inl z ↦
                    subst Claim (sym (walk-breaks h b ack verified m n room hs a f l o d u go z))
                      (λ broke. cc) nb ok
                | inr z ↦
                    let e = walk-goes h b ack verified m n room hs a f l o d u go z in
                    let (pe, up) =
                      walk_sound f d (suc l) (o / 2) hs' _ (omega arith) u
                        (StopTrue-write l o a tl d hs (suc l) (o / 2) u (omega arith) st.1)
                        (subst (λ (w : Walked h b). w.broke ≡ false) e nb)
                        (subst (λ (w : Walked h b). w.uphash ≡ w.hashes w.stop) e ok) in
                    let (te, tb) = children_true l o hs' pe in
                    let kept = λ (x : ℕ) (t : InTree l x).
                      ap (λ (w : Walked h b). w.hashes (node l x)) e
                      ∙ walk_keeps f d (suc l) (o / 2) hs' _ l x u t (omega arith) in
                    (
                      sym (write_self hs (node l o) a) ∙ te,
                      (
                        kept o tl ∙ te,
                        kept (buddy o) (buddy-InTree d l o u) ∙ tb,
                        subst (λ (w : Walked h b). TrueUp w.hashes d (suc l) (o / 2)) (sym e) up,
                      ),
                    )
              ]
            ]
