-- ===== src/Swarm/AddLaws.antt =====
-- `AddSwarm` of a swarm whose root hash is given.
use Prim.Native.Nat.{max}
use libswift.Base.{
  ◌⊎◌, ℕ, ◌≤◌, ◌≡◌, ◌≢◌, refl, sym, ◌∙◌, ap, arith, Bool, true, false, Option, Option-cases, none,
  some, ◌==◌, if◌then◌else◌, inl, inr, Bool-cases,
}
use mathlib.Core.Path.{subst}
use libswift.Swarm.State.{RootHash, Transfers, SwarmData, Os, Manager, root_at, put}
use libswift.Swarm.Data.{touch}
use libswift.Swarm.Search.{find_swarm}
use libswift.Swarm.Build.{is_some}
use libswift.Swarm.Activate.{activate_at}
use libswift.Swarm.Add.{list_swarm, after_activation, activate_new, enter_swarm}
use libswift.Swarm.Find.{find_swarm_iff}
use libswift.Swarm.Wake.{IsActivated, activate_at-IsActivated}
use libswift.Swarm.Listing.{list_swarm-IsEntered}
use libswift.Swarm.Invariant.{
  IsListed-ext, Sleeps, IsConsistentBut, IsConsistent, Keeps, put-Keeps, Keeps-trans, Keeps-refl,
}

module _ {t : Transfers} where
  -- A swarm is rewritten with the same number, root hash, activity and transfer.
  pub rewrite-IsConsistent :
      (p : ℕ) (d : SwarmData t) (m : Manager t)
      → d.id ≡ (m.swarm p).id
      → d.root_hash ≡ (m.swarm p).root_hash
      → d.active ≡ (m.swarm p).active
      → is_some d.ft ≡ is_some (m.swarm p).ft
      → IsConsistent m
      → IsConsistent (put p d m)
  rewrite-IsConsistent p d m hi hr ha hf c = record {
    listed = IsListed-ext (λ q. ground arith) (λ q. ground arith) c.listed;
    running = record {
      marked = λ q. ground (arith, c.running.marked q);
      once = c.running.once;
      counted = c.running.counted;
      opened = λ q b i. ground (arith, c.running.opened q);
    };
    watched = c.watched;
    asleep = λ q b i. ground (arith, c.asleep q);
  }

  abbrev touched : Os t → ℕ → Manager t → Manager t
  touched w p m = put p (record (m.swarm p) { latest_use = w.now }) m

  after_activation-some :
      (w : Os t) (p q : ℕ) (m : Manager t) → after_activation w p (m, some q) ≡ touched w p m
  unfolding after_activation touch
  after_activation-some w p q m = refl

  abbrev closing : Os t → ℕ → Manager t → Option t.Transfer → Manager t
  closing w p m none = touched w p m
  closing w p m (some f) = put p (record (m.swarm p) { ft = none }) m

  after_activation-none :
      (w : Os t) (p : ℕ) (m : Manager t)
      → (m.swarm p).ft ≡ none
      → after_activation w p (m, none) ≡ touched w p m
  unfolding after_activation touch
  after_activation-none w p m e = ap (closing w p m) e

  -- What is left of an activation is left after the touch.
  abbrev IsReady : ℕ → Manager t → Manager t → Type 0
  IsReady p m m' =
      IsConsistent m'
      × (m'.active_swarm_count ≤ max m.active_swarm_count m.max_active_swarms)
      × Keeps m m'

  touched-IsReady :
      (w : Os t) (p : ℕ) (m m1 : Manager t) (o : Option ℕ)
      → IsActivated p m (m1, o)
      → IsReady p m (touched w p m1)
  touched-IsReady w p m m1 o (c, answers, count, keeps) = (
    rewrite-IsConsistent p (record (m1.swarm p) { latest_use = w.now }) m1 refl refl refl refl c,
    count,
    Keeps-trans m m1 (touched w p m1) keeps
        (put-Keeps p (record (m1.swarm p) { latest_use = w.now }) m1 refl refl),
  )

  after_activation-IsReady :
      (w : Os t) (p : ℕ) (m : Manager t) (r : Manager t × Option ℕ)
      → IsActivated p m r
      → IsReady p m (after_activation w p r)
  after_activation-IsReady w p m (m1, some q) a =
      subst (IsReady p m) (sym (after_activation-some w p q m1))
        (touched-IsReady w p m m1 (some q) a)
  after_activation-IsReady w p m (m1, none) a =
      let closed : (m1.swarm p).ft ≡ none = ground (arith, a.1) in
      subst (IsReady p m) (sym (after_activation-none w p m1 closed))
        (touched-IsReady w p m m1 none a)

  -- What is left when a swarm with a root hash is entered: the state is consistent, the root hash finds
  -- the swarm that is given back, no more swarms are active than the maximum or than before, and the
  -- swarms that were known stay known. If the root hash was known, nothing changes.
  abbrev pub IsAdded : RootHash → Manager t → Manager t × Option ℕ → Type 0
  IsAdded h m r =
      IsConsistent r.0
      × ((p : ℕ) × (r.1 ≡ some p) × (find_swarm r.0 h ≡ some p))
      × (r.0.active_swarm_count ≤ max m.active_swarm_count m.max_active_swarms)
      × Keeps m r.0
      × ((find_swarm m h ≡ none) ⊎ (r ≡ (m, find_swarm m h)))

  -- The rest of `AddSwarm`, from the activation on.
  abbrev finish : Os t → ℕ → Bool → Manager t → Manager t
  finish w p activate m = if activate then activate_new w p m else m

  finish-IsReady :
      (w : Os t) (p : ℕ) (activate : Bool) (m : Manager t)
      → IsConsistentBut p m
      → m.alive p ≡ true
      → (activate ≡ false → Sleeps m p)
      → IsReady p m (finish w p activate m)
  finish-IsReady w p true m c a s =
      unfold activate_new in
      after_activation-IsReady w p m (activate_at w p m) (activate_at-IsActivated w p m c a)
  finish-IsReady w p false m c a s = (
    record {
      listed = c.listed;
      running = c.running;
      watched = c.watched;
      asleep = λ q. elim (Bool-cases (q == p)) [
        | inl e ↦ let same : q ≡ p = ground arith in rw same (s refl)
        | inr e ↦ c.asleep q (ground arith)
      ];
    },
    omega arith,
    Keeps-refl m,
  )

  abbrev after_duplicate : Os t → SwarmData t → Bool → Manager t → Option ℕ → Manager t × Option ℕ
  after_duplicate w d activate m (some p) = (m, some p)
  after_duplicate w d activate m none = (finish w m.next activate (list_swarm w d m), some m.next)

  enter_swarm_lem :
      (w : Os t) (d : SwarmData t) (activate : Bool) (m : Manager t)
      → enter_swarm w d activate m ≡ after_duplicate w d activate m (find_swarm m d.root_hash)
  unfolding enter_swarm
  enter_swarm_lem w d activate m = refl

  enter-known :
      (w : Os t) (d : SwarmData t) (activate : Bool) (m : Manager t) (p : ℕ)
      → IsConsistent m
      → find_swarm m d.root_hash ≡ some p
      → IsAdded d.root_hash m (m, some p)
  enter-known w d activate m p c e =
      (c, (p, refl, e), omega arith, Keeps-refl m, inr (ap (λ o. (m, o)) (sym e)))

  enter-new :
      (w : Os t) (d : SwarmData t) (activate : Bool) (m : Manager t)
      → IsConsistent m
      → d.root_hash ≢ 0
      → d.active ≡ false
      → (activate ≡ false → d.ft ≡ none)
      → find_swarm m d.root_hash ≡ none
      → IsAdded d.root_hash m (finish w m.next activate (list_swarm w d m), some m.next)
  unfolding is_some
  enter-new w d activate m c nz still closed unknown =
      let absent = λ (q : ℕ) (a : m.alive q ≡ true) (r : root_at m q ≡ d.root_hash).
        let f = (find_swarm_iff m c.listed d.root_hash q).1 (a, r) in
        absurd {A = ⊥} (ground (arith, unknown, f)) in
      let m1 = list_swarm w d m in
      let e = list_swarm-IsEntered w d m c nz still absent in
      let (good, count, keeps) =
        finish-IsReady w m.next activate m1 e.good e.present
          (λ off b i. e.opened ∙ ap is_some (closed off)) in
      let m2 = finish w m.next activate m1 in
      let root : root_at m2 m.next ≡ d.root_hash = keeps.root m.next e.present ∙ e.root_new in
      (
        good,
        (
          m.next,
          refl,
          (find_swarm_iff m2 good.listed d.root_hash m.next).1 (keeps.alive m.next e.present, root),
        ),
        omega (arith, count, e.count, e.limit),
        Keeps-trans m m1 m2 e.keeps keeps,
        inl unknown,
      )

  -- A swarm that has its root hash, and has its transfer only if it is to be activated, is entered.
  pub enter_swarm-IsAdded :
      (w : Os t) (d : SwarmData t) (activate : Bool) (m : Manager t)
      → IsConsistent m
      → d.root_hash ≢ 0
      → d.active ≡ false
      → (activate ≡ false → d.ft ≡ none)
      → IsAdded d.root_hash m (enter_swarm w d activate m)
  enter_swarm-IsAdded w d activate m c nz still closed =
      let h = d.root_hash in
      let known = λ (o : Option ℕ) (e : find_swarm m h ≡ o).
        enter_swarm_lem w d activate m ∙ ap (after_duplicate w d activate m) e in
      elim (Option-cases (find_swarm m h)) [
        | inr (p, e) ↦
            subst (IsAdded h m) (sym (known (some p) e)) (enter-known w d activate m p c e)
        | inl e ↦
            subst (IsAdded h m) (sym (known none e)) (enter-new w d activate m c nz still closed e)
      ]
