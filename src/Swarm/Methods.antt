-- ===== src/Swarm/Methods.antt =====
-- The methods of `SwarmData` keep the invariant of the manager.
use libswift.Base.{ℕ, ◌≡◌, arith, Bool}
use libswift.Swarm.State.{Direction, Transfers, SwarmData, Os, Manager, put}
use libswift.Swarm.Data.{touch, set_max_speed, add_progress_callback, remove_progress_callback}
use libswift.Swarm.Build.{is_some}
use libswift.Swarm.AddLaws.{rewrite-IsConsistent}
use libswift.Swarm.Invariant.{IsConsistent}

module _ {t : Transfers} where
  -- What a method of `SwarmData` leaves alone.
  abbrev pub LooksAs : SwarmData t → SwarmData t → Type 0
  LooksAs d e =
      (e.id ≡ d.id)
      × (e.root_hash ≡ d.root_hash)
      × (e.active ≡ d.active)
      × (is_some e.ft ≡ is_some d.ft)

  pub method-IsConsistent :
      (p : ℕ) (e : SwarmData t) (m : Manager t)
      → LooksAs (m.swarm p) e
      → IsConsistent m
      → IsConsistent (put p e m)
  method-IsConsistent p e m same c = rewrite-IsConsistent p e m same.0 same.1 same.2 same.3 c

  pub touch-LooksAs : (w : Os t) (b : Bool) (d : SwarmData t) → LooksAs d (touch w b d).1
  unfolding touch
  touch-LooksAs w b d = ground arith

  pub speed-LooksAs :
      (ddir : Direction) (v : t.Speed) (d : SwarmData t) → LooksAs d (set_max_speed ddir v d)
  unfolding set_max_speed is_some
  speed-LooksAs ddir v d = ground arith

  pub add_callback-LooksAs : (cb : ℕ × ℕ) (d : SwarmData t) → LooksAs d (add_progress_callback cb d)
  unfolding add_progress_callback is_some
  add_callback-LooksAs cb d = ground arith

  pub remove_callback-LooksAs :
      (cb : ℕ) (d : SwarmData t) → LooksAs d (remove_progress_callback cb d)
  unfolding remove_progress_callback is_some
  remove_callback-LooksAs cb d = ground arith
