-- ===== src/AvgSpeed.antt =====
-- avgspeed.h and avgspeed.cpp: `MovingAverageSpeed`, the speed of a transfer over a sliding window of
-- time. The `double` arithmetic is a parameter, and so is the clock: each call of `usec_time` is an
-- argument.
use mathlib.Core.Path.{subst}
use Prim.Native.Nat.{max}
use native.Mathlib.Decide.{dec_lt}
use libswift.Base.{
  ℕ, ◌+◌, ◌-◌, ◌/◌, ◌^◌, ◌≤◌, ◌<◌, ◌≡◌, refl, ap, sym, arith, Bool, true, false, Bool-cases, inl,
  inr, if◌then◌else◌,
}
use libswift.Word.{add64, sub64}
use libswift.SendControl.State.{Tint, slt, sdiv}

-- The operations on `double` that the code uses: `seconds` is the conversion of a time and its
-- division by `TINT_SEC`, `sliver` is 0.0001.
pub record Doubles : Type 1 where
  pub Double : Type 0
  pub nil : Double
  pub sliver : Double
  pub seconds : Tint → Double
  pub of_uint64 : ℕ → Double
  pub add : Double → Double → Double
  pub mul : Double → Double → Double
  pub div : Double → Double → Double

module _ (db : Doubles) where
  open db use {Double, seconds, of_uint64, add, mul, div}

  pub record MovingAverageSpeed : Type 0 where
    pub speed_interval : Tint
    pub t_start : Tint
    pub t_end : Tint
    pub speed : Double
    pub fudge : Tint
    pub resetstate : Bool

  -- The constructor at time `now`.
  unfoldable pub start : Tint → Tint → Tint → MovingAverageSpeed
  start now speed_interval fudge = record {
    speed_interval = speed_interval;
    t_start = sub64 now fudge;
    t_end = sub64 now fudge;
    speed = db.nil;
    fudge = fudge;
    resetstate = false;
  }

  -- `AddPoint` behind the test of `resetstate_`.
  unfoldable pub measure : Tint → ℕ → MovingAverageSpeed → MovingAverageSpeed
  measure t amount s =
      let oldest = sub64 t s.speed_interval in
      let sum = add (mul s.speed (seconds (sub64 s.t_end s.t_start))) (of_uint64 amount) in
      record s {
        speed = div sum (add (seconds (sub64 t s.t_start)) db.sliver);
        t_end = t;
        t_start = if slt s.t_start oldest then oldest else s.t_start;
      }

  -- `AddPoint`, with the times of its two calls of the clock.
  unfoldable pub add_point : Tint → Tint → ℕ → MovingAverageSpeed → MovingAverageSpeed
  unfolding measure
  add_point checked t amount s =
      if s.resetstate
      then (if slt checked (add64 s.t_start (sdiv s.speed_interval 2))
          then s
          else measure t amount (record s { resetstate = false }))
      else measure t amount s

  unfoldable pub get_speed : Tint → Tint → MovingAverageSpeed → Double × MovingAverageSpeed
  unfolding add_point
  get_speed checked t s = let s' = add_point checked t 0 s in (s'.speed, s')

  unfoldable pub get_speed_neutral : MovingAverageSpeed → Double
  get_speed_neutral s = s.speed

  unfoldable pub reset : Tint → MovingAverageSpeed → MovingAverageSpeed
  reset now s = record s {
    resetstate = true;
    t_start = sub64 now s.fudge;
    t_end = sub64 now s.fudge;
    speed = db.nil;
  }

  -- The window ends by the time `t`, and begins before it, by no more than the interval.
  pub record HasWindow (t : Tint) (s : MovingAverageSpeed) : Type 0 where
    pub ends : s.t_end ≤ t
    pub ordered : s.t_start ≤ s.t_end
    pub short : s.t_end ≤ s.t_start + s.speed_interval

module _ (db : Doubles) where
  measure-HasWindow :
      (now t amount : ℕ) (s : MovingAverageSpeed db)
      → now ≤ t
      → t < 2 ^ 62
      → s.speed_interval ≤ now
      → HasWindow db now s
      → HasWindow db t (measure db t amount s)
  unfolding measure
  measure-HasWindow now t amount s a b c w = record {
    ends = omega arith;
    ordered = ground (arith, w.ends, w.ordered);
    short = ground (arith, w.ends, w.ordered, w.short);
  }

  add_point-awake :
      (checked t amount : ℕ) (s : MovingAverageSpeed db)
      → s.resetstate ≡ false
      → add_point db checked t amount s ≡ measure db t amount s
  unfolding add_point
  add_point-awake checked t amount s e = ap (λ (x : Bool). choice x) e
    where
      choice : Bool → MovingAverageSpeed db
      choice x =
          if x
          then (if slt checked (add64 s.t_start (sdiv s.speed_interval 2))
              then s
              else measure db t amount (record s { resetstate = false }))
          else measure db t amount s

  add_point-HasWindow :
      (now checked t amount : ℕ) (s : MovingAverageSpeed db)
      → now ≤ t
      → t < 2 ^ 62
      → s.speed_interval ≤ now
      → HasWindow db now s
      → HasWindow db t (add_point db checked t amount s)
  unfolding add_point
  add_point-HasWindow now checked t amount s a b c w =
      let awake : MovingAverageSpeed db = record s { resetstate = false } in
      let w' : HasWindow db now awake = record {
        ends = w.ends;
        ordered = w.ordered;
        short = w.short;
      } in
      elim (Bool-cases s.resetstate) [
        | inr e ↦
            subst (HasWindow db t) (sym (add_point-awake checked t amount s e))
              (measure-HasWindow now t amount s a b c w)
        | inl e ↦ elim (Bool-cases (slt checked (add64 s.t_start (sdiv s.speed_interval 2)))) [
          | inl early ↦
              rw (e, early)
                (record { ends = omega (arith, w.ends); ordered = w.ordered; short = w.short })
          | inr late ↦ rw (e, late) (measure-HasWindow now t amount awake a b c w')
        ]
      ]

-- Where the window stands behind a point added at time `t`: its end is at the point, and its start
-- is where it was, unless that is more than the interval back: then it is the interval back.
abbrev pub IsMoved : {db : Doubles} → ℕ → MovingAverageSpeed db → MovingAverageSpeed db → Type 0
IsMoved t s s' =
    (s'.t_end ≡ t) × (s'.t_start ≡ max s.t_start (t - s.speed_interval)) × (s'.resetstate ≡ false)

-- The point is ignored: a reset is not half an interval old.
abbrev pub IsEarly : {db : Doubles} → ℕ → MovingAverageSpeed db → Type 0
IsEarly checked s = (s.resetstate ≡ true) × (checked < s.t_start + s.speed_interval / 2)

module _ (db : Doubles) (now checked t amount : ℕ) (s : MovingAverageSpeed db) (a : now ≤ t)
    (b : t < 2 ^ 62) (i : s.speed_interval ≤ now) (w : HasWindow db now s) (z : checked ≤ t) where
  -- The test of the code is the one of `IsEarly`.
  early_iff :
      (checked < s.t_start + s.speed_interval / 2
        → slt checked (add64 s.t_start (sdiv s.speed_interval 2)) ≡ true)
      × (s.t_start + s.speed_interval / 2 ≤ checked
          → slt checked (add64 s.t_start (sdiv s.speed_interval 2)) ≡ false)
  early_iff =
      (λ h. ground (arith, h, z, w.ends, w.ordered), λ h. ground (arith, h, z, w.ends, w.ordered))

  add_point-early : IsEarly checked s → add_point db checked t amount s ≡ s
  unfolding add_point
  add_point-early (e, early) = rw (e, early_iff.0 early) refl

  measure-IsMoved :
      (s1 : MovingAverageSpeed db)
      → s1.t_start ≡ s.t_start
      → s1.speed_interval ≡ s.speed_interval
      → s1.resetstate ≡ false
      → IsMoved t s (measure db t amount s1)
  unfolding measure
  measure-IsMoved s1 e f g = (refl, ground (arith, e, f, w.ends, w.ordered), g)

  add_point-IsMoved : ¬ IsEarly checked s → IsMoved t s (add_point db checked t amount s)
  unfolding add_point
  add_point-IsMoved late = elim (Bool-cases s.resetstate) [
    | inr e ↦
        subst (IsMoved t s) (sym (add_point-awake db checked t amount s e))
          (measure-IsMoved s refl refl e)
    | inl e ↦ elim (dec_lt checked (s.t_start + s.speed_interval / 2)) [
      | yes early ↦ absurd (late (e, early))
      | no n ↦
          rw (e, early_iff.1 (omega (arith, n)))
            (measure-IsMoved (record s { resetstate = false }) refl refl refl)
    ]
  ]

-- For a clock that does not run backwards, up to 2 ^ 62, and a fudge and an interval that do not
-- reach back before its start: a new measurement and a reset have a window of no length that ends the
-- fudge ago. Adding a point changes nothing while a reset is less than half an interval old by the
-- first reading; otherwise the window ends at the second reading `t`, and begins at its old start or
-- the interval before `t`, whichever is later. The window stays no longer than the interval.
pub window_laws :
    (db : Doubles) (now checked t amount interval fudge : ℕ) (s : MovingAverageSpeed db)
    → now ≤ t
    → t < 2 ^ 62
    → checked ≤ t
    → fudge ≤ now
    → interval ≤ now
    → s.speed_interval ≡ interval
    → s.fudge ≡ fudge
    → HasWindow db now s
    → let s' = add_point db checked t amount s in
      ((start db now interval fudge).t_start ≡ now - fudge)
      × ((start db now interval fudge).t_end ≡ now - fudge)
      × ((reset db now s).t_start ≡ now - fudge)
      × ((reset db now s).t_end ≡ now - fudge)
      × ((reset db now s).resetstate ≡ true)
      × (IsEarly checked s → s' ≡ s)
      × (¬ IsEarly checked s → IsMoved t s s')
      × HasWindow db t s'
unfolding start reset
window_laws db now checked t amount interval fudge s a b z c d e f w =
    let i : s.speed_interval ≤ now = omega (arith, d, e) in
    (
      omega (arith, a, b, c),
      omega (arith, a, b, c),
      omega (arith, a, b, c, f),
      omega (arith, a, b, c, f),
      refl,
      add_point-early db now checked t amount s a b i w z,
      add_point-IsMoved db now checked t amount s a b i w z,
      add_point-HasWindow db now checked t amount s a b i w,
    )

-- A reset ignores the points of the first half interval behind the new start of the window.
pub add_point-reset :
    (db : Doubles) (now checked t amount : ℕ) (s : MovingAverageSpeed db)
    → now < 2 ^ 62
    → s.fudge ≤ now
    → s.speed_interval < 2 ^ 62
    → checked < now - s.fudge + s.speed_interval / 2
    → add_point db checked t amount (reset db now s) ≡ reset db now s
unfolding add_point reset
add_point-reset db now checked t amount s a b c early =
    let soon : slt checked (add64 (sub64 now s.fudge) (sdiv s.speed_interval 2)) ≡ true =
      ground arith in
    rw soon refl
