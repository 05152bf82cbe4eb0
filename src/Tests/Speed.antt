-- ===== src/Tests/Speed.antt =====
-- The theorems about the average speed and the bitmap table, applied at concrete inputs.
use libswift.Base.{ℕ, ◌+◌, ◌*◌, ◌/◌, ◌≡◌, arith, true, false}
use libswift.AvgSpeed.{
  Doubles, MovingAverageSpeed, HasWindow, IsEarly, IsMoved, start, add_point, reset, window_laws,
}

abbrev whole_speed : Doubles
whole_speed = record {
  Double = ℕ;
  nil = 0;
  sliver = 1;
  seconds = λ t. t / 1000000;
  of_uint64 = λ n. n;
  add = λ x y. x + y;
  mul = λ x y. x * y;
  div = λ x y. x / y;
}

-- A window of three seconds, at ten seconds.
abbrev speed : MovingAverageSpeed whole_speed
speed = record {
  speed_interval = 5000000;
  t_start = 7000000;
  t_end = 10000000;
  speed = 300;
  fudge = 1000000;
  resetstate = false;
}

speed_HasWindow : HasWindow whole_speed 10000000 speed
speed_HasWindow = record { ends = omega arith; ordered = omega arith; short = omega arith }

window_laws_example :
    let s' = add_point whole_speed 11000000 12000000 100 speed in
    ((start whole_speed 10000000 5000000 1000000).t_start ≡ 9000000)
    × ((start whole_speed 10000000 5000000 1000000).t_end ≡ 9000000)
    × ((reset whole_speed 10000000 speed).t_start ≡ 9000000)
    × ((reset whole_speed 10000000 speed).t_end ≡ 9000000)
    × ((reset whole_speed 10000000 speed).resetstate ≡ true)
    × (IsEarly 11000000 speed → s' ≡ speed)
    × (¬ IsEarly 11000000 speed → IsMoved 12000000 speed s')
    × HasWindow whole_speed 12000000 s'
window_laws_example =
    window_laws whole_speed 10000000 11000000 12000000 100 5000000 1000000 speed (omega arith)
      (omega arith) (omega arith) (omega arith) (omega arith) (omega arith) (omega arith)
      speed_HasWindow
