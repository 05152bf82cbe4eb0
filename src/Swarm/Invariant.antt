-- ===== src/Swarm/Invariant.antt =====
-- The invariant of the manager, after `SwarmManager::invariant()`.
use libswift.Base.{
  ℕ, ◌<◌, ◌≡◌, ◌≢◌, refl, ◌∙◌, arith, Bool, true, false, not, ◌&&◌, ◌||◌, leb, Option, none, some,
  List, map, length, ltb, ==-eq_false, ◌==◌,
}
use mathlib.Core.Path.{subst, fun_ext}
use libswift.Swarm.State.{
  RootHash, Transfers, SwarmData, UnusedIndex, Manager, bucket, root_at, put,
}
use libswift.Swarm.Vector.{member}
use libswift.Swarm.VectorLaws.{IsUnique}
use libswift.Swarm.Location.{Rises}
use libswift.Swarm.Search.{slot_at}
use libswift.Swarm.Build.{is_some}

abbrev pub indices : List UnusedIndex → List ℕ
indices = map λ u. u.index

-- The place of a number, which may be -1.
abbrev pub slot_of : List (Option ℕ) → Option ℕ → Option ℕ
slot_of list none = none
slot_of list (some id) = slot_at list id

-- The two directories. A swarm is in the bucket of its root hash, which is not zero, and in no other;
-- a bucket is in the order of the hashes; a swarm stands at its number; the free numbers are exactly
-- the empty places, each once.
pub record IsListed (root : ℕ → RootHash) (id : ℕ → Option ℕ) (alive : ℕ → Bool)
    (known : ℕ → List ℕ) (list : List (Option ℕ)) (unused : List UnusedIndex) (next : ℕ)
    : Type 0 where
  pub found : (i p : ℕ) → member p (known i) ≡ (alive p && bucket (root p) == i)
  pub rises : (i : ℕ) → Rises (map root (known i))
  pub nonzero : (p : ℕ) → alive p ≡ true → root p ≢ 0
  pub numbered : (p : ℕ) → alive p ≡ true → slot_of list (id p) ≡ some p
  pub held : (k p : ℕ) → slot_at list k ≡ some p → (alive p ≡ true) × (id p ≡ some k)
  pub vacant :
      (k : ℕ) → member k (indices unused) ≡ (ltb k (length list) && not (is_some (slot_at list k)))
  pub once : IsUnique (indices unused)
  pub fresh : (p : ℕ) → alive p ≡ true → p < next

-- The list of active swarms holds exactly those that are marked active, each once, and its length is
-- the count; an active swarm has its transfer.
pub record IsRunning (alive active has_ft : ℕ → Bool) (running : List ℕ) (count : ℕ) : Type 0 where
  pub marked : (p : ℕ) → member p running ≡ (alive p && active p)
  pub once : IsUnique running
  pub counted : count ≡ length running
  pub opened : (p : ℕ) → alive p ≡ true → active p ≡ true → has_ft p ≡ true

module _ {t : Transfers} where
  abbrev pub id_at : Manager t → ℕ → Option ℕ
  id_at m p = (m.swarm p).id

  abbrev pub active_at : Manager t → ℕ → Bool
  active_at m p = (m.swarm p).active

  abbrev pub has_ft_at : Manager t → ℕ → Bool
  has_ft_at m p = is_some (m.swarm p).ft

  abbrev pub Listed : Manager t → Type 0
  Listed m =
      IsListed (λ p. (m.swarm p).root_hash) (id_at m) m.alive m.known_swarms m.swarm_list
        m.unused_indices m.next

  abbrev pub Running : Manager t → Type 0
  Running m = IsRunning m.alive (active_at m) (has_ft_at m) m.active_swarms m.active_swarm_count

  -- A swarm that is not active has no transfer.
  abbrev pub Sleeps : Manager t → ℕ → Type 0
  Sleeps m p = m.alive p ≡ true → active_at m p ≡ false → has_ft_at m p ≡ false

  -- More swarms than allowed are active only while the timer is pending.
  abbrev pub Watched : Manager t → Type 0
  Watched m = (leb m.active_swarm_count m.max_active_swarms || m.timer) ≡ true

  -- The invariant, but for one swarm, which may have a transfer before it is active.
  pub record IsConsistentBut (x : ℕ) (m : Manager t) : Type 0 where
    pub listed : Listed m
    pub running : Running m
    pub watched : Watched m
    pub asleep : (p : ℕ) → p ≢ x → Sleeps m p

  -- The invariant.
  pub record IsConsistent (m : Manager t) : Type 0 where
    pub listed : Listed m
    pub running : Running m
    pub watched : Watched m
    pub asleep : (p : ℕ) → Sleeps m p

-- The directories depend on the swarms by their root hashes and numbers only.
pub IsListed-ext :
    {root root' : ℕ → RootHash} {id id' : ℕ → Option ℕ} {alive : ℕ → Bool} {known : ℕ → List ℕ}
    {list : List (Option ℕ)} {unused : List UnusedIndex} {next : ℕ}
    → ((p : ℕ) → root p ≡ root' p)
    → ((p : ℕ) → id p ≡ id' p)
    → IsListed root id alive known list unused next
    → IsListed root' id' alive known list unused next
IsListed-ext {root} {root'} {id} {id'} {alive} {known} {list} {unused} {next} hr hi l =
    subst (λ f. IsListed root' f alive known list unused next) (fun_ext hi)
      (subst (λ f. IsListed f id alive known list unused next) (fun_ext hr) l)

-- A write at one address leaves the others.
pub put-other :
    {t : Transfers} (p q : ℕ) (d : SwarmData t) (m : Manager t)
    → q ≢ p
    → (put p d m).swarm q ≡ m.swarm q
put-other p q d m ne = rw (==-eq_false q p ne)

-- Known swarms stay known, with their root hashes and their numbers.
pub record Keeps {t : Transfers} (m m' : Manager t) : Type 0 where
  pub alive : (q : ℕ) → m.alive q ≡ true → m'.alive q ≡ true
  pub root : (q : ℕ) → m.alive q ≡ true → root_at m' q ≡ root_at m q
  pub number : (q : ℕ) → m.alive q ≡ true → id_at m' q ≡ id_at m q

pub put-Keeps :
    {t : Transfers} (p : ℕ) (d : SwarmData t) (m : Manager t)
    → d.id ≡ (m.swarm p).id
    → d.root_hash ≡ (m.swarm p).root_hash
    → Keeps m (put p d m)
put-Keeps p d m hi hr = record {
  alive = λ q a. a;
  root = λ q a. ground arith;
  number = λ q a. ground arith;
}

pub Keeps-trans : {t : Transfers} (m m' m'' : Manager t) → Keeps m m' → Keeps m' m'' → Keeps m m''
Keeps-trans m m' m'' k l = record {
  alive = λ q a. l.alive q (k.alive q a);
  root = λ q a. l.root q (k.alive q a) ∙ k.root q a;
  number = λ q a. l.number q (k.alive q a) ∙ k.number q a;
}

pub Keeps-refl : {t : Transfers} (m : Manager t) → Keeps m m
Keeps-refl m = record { alive = λ q a. a; root = λ q a. refl; number = λ q a. refl }
