-- ===== src/HashTree/Proven.antt =====
-- From the invariant of the tree: wherever the walk of `OfferHash` may stop above the base, the
-- hashes from there up to the peak are right.
use mathlib.Core.Path.{subst}
use libswift.Base.{
  ℕ, zero, suc, ◌+◌, ◌/◌, ◌<◌, ◌≡◌, ◌≢◌, inl, inr, true, false, ap, sym, ◌∙◌, arith, Bool-cases,
  List, ==-eq_false,
}
use libswift.Bin.{Bin}
use libswift.Bin.Layout.{node}
use libswift.Bin.Family.{buddy}
use libswift.BinSet.{BinSet, covers}
use libswift.Hashing.{Hashing}
use libswift.HashTree.Walk.{unproven}
use libswift.HashTree.Spec.{merkle, Under, HasRoom, HasPeak, IsProven, Genuine}
use libswift.HashTree.Kin.{
  Under-layer, Within-Under, Under-HasRoom, HasRoom-InTree, Under-trans, node_number,
  of_layer-number,
}
use libswift.HashTree.Climb.{goes, node_layer}
use libswift.HashTree.Sound.{TrueUp, StopTrue}

module _ (h : Hashing) (b : BinSet) (leaf : ℕ → h.Hash) (hs : Bin → h.Hash)
    (peaks : List (Bin × h.Hash)) (ack verified : b.Set)
    (g : Genuine h b leaf hs peaks ack verified) (m n : ℕ) (room : HasRoom m n)
    (has : HasPeak peaks m n) where
  -- The marks of a bin as a test.
  pub unproven_iff :
      (l o : ℕ) → HasRoom l o → unproven h b verified (node l o) ≡ false → IsProven h b verified l o
  unproven_iff l o r e = elim (Bool-cases (b.mem verified (node l o))) [
    | inl p ↦ p
    | inr q ↦
        let none_there : (x : ℕ) → covers 0 (node l o) x ≡ true → b.mem verified x ≡ false = λ x c.
          (let same : node l o ≡ x = ground arith in
            subst (λ (y : ℕ). b.mem verified y ≡ false) same q) in
        let clear =
          (b.is_empty_iff verified g.verified_sound 0 (node l o) (node_number l o r)).1
            none_there in
        absurd (clash (sym (ap (b.is_empty verified) (of_layer-number l o r) ∙ clear) ∙ e))
  ]
    where
      clash : true ≡ false → ⊥
      clash e = cc

  TrueUp-proven :
      (d l o : ℕ)
      → Under d m n (suc l) o
      → (0 < d → IsProven h b verified (suc l) o)
      → TrueUp h b leaf hs d (suc l) o
  TrueUp-proven zero l o u p =
      subst (λ (x : ℕ). hs (node x o) ≡ merkle h leaf x o) (sym u.0)
        (subst (λ (x : ℕ). hs (node m x) ≡ merkle h leaf m x) (sym u.1) (g.peak_hash m n has))
  TrueUp-proven (suc d) l o u p =
      let here = p (omega arith) in
      let half : o / 2 ≡ buddy o / 2 = omega arith in
      (
        g.proven_hash (suc d) m n (suc l) o has u here,
        g.proven_hash (suc d) m n (suc l) (buddy o) has
            (subst (λ (x : ℕ). Under d m n (suc (suc l)) x) half u)
            (g.proven_sibling d m n l o has u here),
        TrueUp-proven d (suc l) (o / 2) u (λ _. g.proven_parent d m n (suc l) o has u here),
      )

  -- A proven bin's ancestors are proven.
  IsProven-climb :
      (e d l o k x : ℕ)
      → Under e l o k x
      → Under d m n l o
      → IsProven h b verified k x
      → IsProven h b verified l o
  IsProven-climb zero d l o k x v u p =
      subst (λ (y : ℕ). IsProven h b verified y o) v.0 (subst (IsProven h b verified k) v.1 p)
  IsProven-climb (suc e) d l o k x v u p =
      IsProven-climb e d l o (suc k) (x / 2) v u
        (g.proven_parent (e + d) m n k x has (Under-trans m n e d l o (suc k) (x / 2) v u) p)

  -- Above a chunk that is acknowledged, all is proven up to the peak.
  acked-IsProven :
      (d l o i : ℕ)
      → Under (suc d) m n (suc l) o
      → covers (suc l) o i ≡ true
      → b.mem ack i ≡ true
      → IsProven h b verified (suc l) o
  acked-IsProven d l o i u c acked =
      let (e, v) = Within-Under 0 i (suc l) o (ground arith) in go e v
    where
      go : (e : ℕ) → Under e (suc l) o 0 i → IsProven h b verified (suc l) o
      go zero v = absurd (omega arith)
      go (suc e) v =
          let same : suc e + suc d ≡ suc (e + suc d) = omega arith in
          IsProven-climb e (suc d) (suc l) o 1 (i / 2) v u (
            g.acked_parent (e + suc d) m n i has (Under-trans m n e (suc d) (suc l) o 1 (i / 2) v u)
              acked)

  -- A bin above the base that holds an acknowledged chunk is proven.
  not_empty-IsProven :
      (d l o : ℕ)
      → Under (suc d) m n (suc l) o
      → b.is_empty ack (node (suc l) o) ≡ false
      → IsProven h b verified (suc l) o
  not_empty-IsProven d l o u e = elim (Bool-cases (b.mem verified (node (suc l) o))) [
    | inl p ↦ p
    | inr q ↦
        let t = HasRoom-InTree (suc l) o (Under-HasRoom (suc d) m n (suc l) o u room) in
        let free : (i : ℕ) → covers (suc l) o i ≡ true → b.mem ack i ≡ false = λ i c.
          elim (Bool-cases (b.mem ack i)) [
            | inl acked ↦ absurd (clash (sym (acked-IsProven d l o i u c acked) ∙ q))
            | inr clear ↦ clear
          ] in
        absurd (clash (sym ((b.is_empty_iff ack g.ack_sound (suc l) o t).1 free) ∙ e))
  ]
    where
      clash : true ≡ false → ⊥
      clash e = cc

  -- A bin strictly under the peak is another bin.
  pub below_peak : (d l o : ℕ) → 0 < d → Under d m n l o → node l o ≢ node m n
  below_peak d l o pos u e =
      let same =
        node_layer l o m n (HasRoom-InTree l o (Under-HasRoom d m n l o u room))
          (HasRoom-InTree m n room) e in
      omega (arith, same, Under-layer d m n l o u)

  -- The walk stops above the base only where the hashes are right.
  pub StopTrue-genuine :
      (d l o : ℕ) → Under d m n (suc l) o → StopTrue h b leaf ack verified m n room hs d (suc l) o
  StopTrue-genuine zero l o u = TrueUp-proven zero l o u (λ p. absurd (omega arith))
  StopTrue-genuine (suc d) l o u =
      (λ e. TrueUp-proven (suc d) l o u (λ _. stopped e), StopTrue-genuine d (suc l) (o / 2) u)
    where
      clash : true ≡ false → ⊥
      clash e = cc

      stopped : goes h b ack verified m n room (suc l) o ≡ false → IsProven h b verified (suc l) o
      stopped e = elim (Bool-cases (b.is_empty ack (node (suc l) o))) [
        | inr full ↦ not_empty-IsProven d l o u full
        | inl clear ↦ elim (Bool-cases (unproven h b verified (node (suc l) o))) [
          | inr p ↦ unproven_iff (suc l) o (Under-HasRoom (suc d) m n (suc l) o u room) p
          | inl q ↦
              let apart : node (suc l) o ≢ node m n =
                below_peak (suc d) (suc l) o (omega arith) u in
              let all : goes h b ack verified m n room (suc l) o ≡ true =
                rw (==-eq_false (node (suc l) o) (node m n) apart, clear, q) in
              absurd (clash (sym all ∙ e))
        ]
      ]
