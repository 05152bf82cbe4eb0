-- ===== src/Swarm/Enter.antt =====
-- A new swarm enters the directories.
use libswift.Base.{
  ℕ, suc, ◌≡◌, ◌≢◌, sym, ◌∙◌, ap, arith, Bool, true, false, not, ◌&&◌, ◌||◌, Option, Option-cases,
  none, some, List, length, map, ltb, ◌==◌, if◌then◌else◌, inl, inr, Bool-cases,
}
use libswift.Swarm.State.{RootHash, UnusedIndex, bucket}
use libswift.Swarm.Vector.{get_elem?, insert_at, member}
use libswift.Swarm.VectorLaws.{IsUnique, member_of_get_elem?, member-insert_at}
use libswift.Swarm.Location.{Rises}
use libswift.Swarm.Buckets.{map-insert_at, insert_at-Rises, get_elem?-map_inv}
use libswift.Swarm.Search.{slot_at, lower_bound}
use libswift.Swarm.Build.{is_some}
use libswift.Swarm.Directory.{map-agree, not-alive_of-fresh}
use libswift.Swarm.Invariant.{IsListed, indices, slot_of}

module _ {root root' : ℕ → RootHash} {id id' : ℕ → Option ℕ} {alive : ℕ → Bool} {known : ℕ → List ℕ}
    {list : List (Option ℕ)} {unused : List UnusedIndex} {next : ℕ}
    (l : IsListed root id alive known list unused next) (r : RootHash) (n : ℕ) (nonzero : r ≢ 0)
    (absent : (q : ℕ) → alive q ≡ true → root q ≢ r) (new_root : root' next ≡ r)
    (old_root : (q : ℕ) → q ≢ next → root' q ≡ root q) (new_id : id' next ≡ some n)
    (old_id : (q : ℕ) → q ≢ next → id' q ≡ id q) where
  abbrev born : ℕ → Bool
  born q = q == next || alive q

  abbrev place : ℕ
  place = lower_bound (map root (known (bucket r))) r

  abbrev joined : ℕ → List ℕ
  joined i = if i == bucket r then insert_at place next (known (bucket r)) else known i

  unborn : alive next ≡ false
  unborn = not-alive_of-fresh alive next (l.fresh next)

  member-ne : (i q : ℕ) → member q (known i) ≡ true → q ≢ next
  member-ne i q m e = absurd (ground (arith, l.found i q, unborn, ap alive e))

  joined-found : (i q : ℕ) → member q (joined i) ≡ (born q && bucket (root' q) == i)
  joined-found i q = elim (Bool-cases (q == next)) [
    | inl e ↦
        let same : q ≡ next = ground arith in
        let here : root' q ≡ r = ap root' same ∙ new_root in
        let gone : alive q ≡ false = ap alive same ∙ unborn in
        ground (
          arith,
          l.found i q,
          l.found (bucket r) q,
          member-insert_at q place next (known (bucket r)),
          here,
          gone,
        )
    | inr e ↦ ground (
      arith,
      l.found i q,
      l.found (bucket r) q,
      member-insert_at q place next (known (bucket r)),
      old_root q (ground arith),
    )
  ]

  not-at_place : get_elem? (map root (known (bucket r))) place ≢ some r
  not-at_place h =
      let (p, at, e) = get_elem?-map_inv root place r (known (bucket r)) h in
      let m = member_of_get_elem? p place (known (bucket r)) at in
      absent p (ground (arith, l.found (bucket r) p, m)) e

  root'-known : (i : ℕ) → map root' (known i) ≡ map root (known i)
  root'-known i = map-agree root' root (known i) (λ q m. old_root q (member-ne i q m))

  joined-Rises : (i : ℕ) → Rises (map root' (joined i))
  joined-Rises i = elim (Bool-cases (i == bucket r)) [
    | inl e ↦ rw e (
        rw (map-insert_at root' place next (known (bucket r)), root'-known (bucket r), new_root)
          (insert_at-Rises r (map root (known (bucket r))) (l.rises (bucket r)) not-at_place))
    | inr e ↦ rw e (rw (root'-known i) (l.rises i))
  ]

  joined-nonzero : (q : ℕ) → born q ≡ true → root' q ≢ 0
  joined-nonzero q b = elim (Bool-cases (q == next)) [
    | inl e ↦
        let same : q ≡ next = ground arith in λ z. nonzero (sym new_root ∙ sym (ap root' same) ∙ z)
    | inr e ↦ λ z. l.nonzero q (ground arith) (sym (old_root q (ground arith)) ∙ z)
  ]

  module _ (list' : List (Option ℕ)) (empty : slot_at list n ≡ none)
      (slots : (k : ℕ) → slot_at list' k ≡ (if k == n then some next else slot_at list k)) where
    joined-numbered : (q : ℕ) → born q ≡ true → slot_of list' (id' q) ≡ some q
    joined-numbered q b = elim (Bool-cases (q == next)) [
      | inl e ↦
          let same : q ≡ next = ground arith in
          let named : id' q ≡ some n = ap id' same ∙ new_id in
          rw named (ground (arith, slots n, same))
      | inr e ↦
          let ne : q ≢ next = ground arith in
          let old : slot_of list (id q) ≡ some q = l.numbered q (ground arith) in
          rw (old_id q ne) (elim (Option-cases (id q)) [
            | inl o ↦ absurd (ground (arith, old, o))
            | inr (k, o) ↦ rw o (ground (arith, slots k, old, o, empty))
          ])
    ]

    joined-held : (k q : ℕ) → slot_at list' k ≡ some q → (born q ≡ true) × (id' q ≡ some k)
    joined-held k q h = elim (Bool-cases (k == n)) [
      | inl e ↦
          let same : q ≡ next = ground (arith, slots k) in
          let named : id' q ≡ some n = ap id' same ∙ new_id in (ground arith, ground (arith, named))
      | inr e ↦
          let (a, i) = l.held k q (ground (arith, slots k)) in
          let ne : q ≢ next = λ same. absurd (ground (arith, unborn, ap alive same)) in
          (ground (arith, a), old_id q ne ∙ i)
    ]

    -- A new swarm enters its bucket, and stands at a number whose place was empty.
    pub IsListed-enter :
        {unused' : List UnusedIndex}
        → ((k : ℕ)
            → member k (indices unused')
              ≡ (ltb k (length list') && not (is_some (slot_at list' k))))
        → IsUnique (indices unused')
        → IsListed root' id' born joined list' unused' (suc next)
    IsListed-enter vacant once = record {
      found = joined-found;
      rises = joined-Rises;
      nonzero = joined-nonzero;
      numbered = joined-numbered;
      held = joined-held;
      vacant = vacant;
      once = once;
      fresh = λ q b. ground (arith, l.fresh q);
    }
