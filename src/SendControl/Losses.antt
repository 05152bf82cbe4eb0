-- ===== src/SendControl/Losses.antt =====
-- What `TimeoutDataOut` gives up and counts, and the bounds of the times that the send control uses.
use Prim.Native.Nat.{min, max}
use mathlib.Core.Path.{subst}
use libswift.Word.{sub64}
use libswift.Base.{
  ℕ, ◌+◌, ◌-◌, ◌*◌, ◌%◌, ◌^◌, ◌≤◌, ◌<◌, ◌≡◌, refl, ap, sym, ◌∙◌, arith, Bool, false, not, ◌&&◌,
  ◌||◌, Bool-cases, inl, inr, List, [], ◌∷◌, ◌++◌, length, if◌then◌else◌, ◌==◌,
}
use libswift.Bin.{Bin, none_bin, all_bin, of_layer}
use libswift.BinSet.{BinSet}
use libswift.SendControl.State.{
  Tint, slt, tint_never, max_possible_rtt, Floats, Mode, keep_alive_control, ping_pong_control,
  slow_start_control, aimd_control, ledbat_control, close_control, TintBin, Channel, ack_timeout,
}
use libswift.SendControl.Timeout.{
  is_cleared, Losses, lose, drop_expired, drop_old, expiry, timeout_data_out,
}

-- A chunk that is cleared holds neither a time nor a bin.
abbrev pub cleared : TintBin → Bool
unfolding of_layer
cleared x = x.time == tint_never && x.bin == none_bin

-- A sent chunk that goes: it is cleared, or older than the limit.
abbrev pub expired : Tint → TintBin → Bool
unfolding of_layer
expired limit x = slt x.time limit || cleared x

-- The longest run of expired entries at the front.
abbrev pub taken : Tint → List TintBin → List TintBin
unfolding of_layer
taken limit [] = []
taken limit (x ∷ xs) = let rest = taken limit xs in if expired limit x then x ∷ rest else []

-- The first entry, if there is one, has not expired.
abbrev pub IsFresh : Tint → List TintBin → Type 0
unfolding of_layer
IsFresh limit [] = Unit
IsFresh limit (x ∷ xs) = expired limit x ≡ false

-- `b` holds the acknowledged chunks; a chunk that is neither cleared nor acknowledged is lost.
abbrev pub lost : (b : BinSet) → b.Set → TintBin → Bool
unfolding of_layer
lost b ack x = not (cleared x) && b.is_empty ack x.bin

abbrev pub lost_of : (b : BinSet) → b.Set → List TintBin → List TintBin
unfolding of_layer
lost_of b ack [] = []
lost_of b ack (x ∷ xs) = let rest = lost_of b ack xs in if lost b ack x then x ∷ rest else rest

-- The hint capacity is lifted by a loss.
abbrev pub cap_after : List TintBin → Bin → Bin
unfolding of_layer
cap_after [] cap = cap
cap_after (x ∷ xs) cap = all_bin

cap_after_all : (xs : List TintBin) → cap_after xs all_bin ≡ all_bin
unfolding of_layer
cap_after_all [] = refl
cap_after_all (x ∷ xs) = refl

append_nil : (xs : List TintBin) → xs ++ [] ≡ xs
append_nil [] = refl
append_nil (x ∷ xs) = ap (λ (ys : List TintBin). x ∷ ys) (append_nil xs)

append_one : (xs ys : List TintBin) (x : TintBin) → (xs ++ x ∷ []) ++ ys ≡ xs ++ x ∷ ys
append_one [] ys x = refl
append_one (z ∷ xs) ys x = ap (λ (zs : List TintBin). z ∷ zs) (append_one xs ys x)

module _ (b : BinSet) (ack : b.Set) (limit : Tint) where
  -- What the first loop leaves behind, from the counts `l` on.
  abbrev IsLoss : List TintBin → Losses → List TintBin × Losses → Type 0
  unfolding of_layer
  IsLoss xs l r =
      let losses = lost_of b ack (taken limit xs) in
      (xs ≡ taken limit xs ++ r.0)
      × IsFresh limit r.0
      × (r.1.ack_not_rcvd ≡ l.ack_not_rcvd + length losses)
      × (r.1.tmo ≡ l.tmo ++ losses)
      × (r.1.cap ≡ cap_after losses l.cap)
      × ((r.1.size + length losses) % 2 ^ 32 ≡ l.size % 2 ^ 32)

  drop_expired-IsLoss :
      (xs : List TintBin) (l : Losses) → IsLoss xs l (drop_expired b ack limit xs l)
  unfolding drop_expired lose is_cleared of_layer
  drop_expired-IsLoss [] l = (refl, tt, omega arith, sym (append_nil l.tmo), refl, omega arith)
  drop_expired-IsLoss (x ∷ xs) l = elim (Bool-cases (expired limit x)) [
    | inr e ↦ rw e (refl, e, omega arith, sym (append_nil l.tmo), refl, omega arith)
    | inl e ↦ elim (Bool-cases (lost b ack x)) [
      | inr m ↦
          let (cut, fresh, count, tmo, cap, size) = drop_expired-IsLoss xs l in
          rw (e, m) (ap (λ (ys : List TintBin). x ∷ ys) cut, fresh, count, tmo, cap, size)
      | inl m ↦
          let (cut, fresh, count, tmo, cap, size) = drop_expired-IsLoss xs (lose x l) in
          rw (e, m)
            (
              ap (λ (ys : List TintBin). x ∷ ys) cut,
              fresh,
              omega (arith, count),
              tmo ∙ append_one l.tmo (lost_of b ack (taken limit xs)) x,
              cap ∙ cap_after_all (lost_of b ack (taken limit xs)),
              omega (arith, size),
            )
    ]
  ]

drop_old_lem :
    (limit : Tint) (xs : List TintBin)
    → (xs ≡ taken limit xs ++ drop_old limit xs) × IsFresh limit (drop_old limit xs)
unfolding drop_old is_cleared of_layer
drop_old_lem limit [] = (refl, tt)
drop_old_lem limit (x ∷ xs) =
    let (cut, fresh) = drop_old_lem limit xs in
    elim (Bool-cases (slt x.time limit)) [
      | inl a ↦ elim (Bool-cases (cleared x)) [
        | inl e ↦ rw (a, e) (ap (λ (ys : List TintBin). x ∷ ys) cut, fresh)
        | inr e ↦ rw (a, e) (ap (λ (ys : List TintBin). x ∷ ys) cut, fresh)
      ]
      | inr a ↦ elim (Bool-cases (cleared x)) [
        | inl e ↦ rw (a, e) (ap (λ (ys : List TintBin). x ∷ ys) cut, fresh)
        | inr e ↦ rw (a, e) (refl, rw (a, e) refl)
      ]
    ]

-- What giving up chunks leaves, for the age limits `limit` of the two queues.
abbrev pub GivesUp : {fl : Floats} {b : BinSet} → Tint → Tint → Channel fl b → Channel fl b → Type 0
unfolding of_layer
GivesUp {b = b} limit oldest c c' =
    let losses = lost_of b c.ack_in (taken limit c.data_out) in
    (c.data_out ≡ taken limit c.data_out ++ c'.data_out)
    × IsFresh limit c'.data_out
    × (c'.ack_not_rcvd_recent ≡ c.ack_not_rcvd_recent + length losses)
    × ((c'.data_out_size + length losses) % 2 ^ 32 ≡ c.data_out_size % 2 ^ 32)
    × (c'.data_out_cap ≡ cap_after losses c.data_out_cap)
    × (c.data_out_tmo ++ losses ≡ taken oldest (c.data_out_tmo ++ losses) ++ c'.data_out_tmo)
    × IsFresh oldest c'.data_out_tmo

-- How many times the timeout of an acknowledgement a chunk is waited for.
abbrev pub patience : Mode → ℕ
patience ledbat_control = 1
patience keep_alive_control = 3
patience ping_pong_control = 3
patience slow_start_control = 3
patience aimd_control = 3
patience close_control = 3

module _ (fl : Floats) (b : BinSet) (now : Tint) (c : Channel fl b) (rtt : c.rtt_avg < 2 ^ 60)
    (dev : c.dev_avg < 2 ^ 60) (late : 90000000 ≤ now) (soon : now < 2 ^ 62) where
  expiry-eq :
      (m : Mode)
      → expiry now m c ≡ now - patience m * min (c.rtt_avg + 4 * max c.dev_avg 50000) 30000000
  unfolding expiry ack_timeout
  expiry-eq ledbat_control = ground arith
  expiry-eq keep_alive_control = ground arith
  expiry-eq ping_pong_control = ground arith
  expiry-eq slow_start_control = ground arith
  expiry-eq aimd_control = ground arith
  expiry-eq close_control = ground arith

  GivesUp-expiry :
      GivesUp (expiry now c.send_control c) (sub64 now max_possible_rtt) c (timeout_data_out now c)
  unfolding timeout_data_out of_layer
  GivesUp-expiry =
      let limit = expiry now c.send_control c in
      let oldest = sub64 now max_possible_rtt in
      let behind = c.data_out_tmo ++ lost_of b c.ack_in (taken limit c.data_out) in
      let (cut, fresh, count, tmo, cap, size) =
        drop_expired-IsLoss b c.ack_in limit c.data_out (record {
          ack_not_rcvd = c.ack_not_rcvd_recent;
          cap = c.data_out_cap;
          tmo = c.data_out_tmo;
          size = c.data_out_size;
        }) in
      let (old, young) = drop_old_lem oldest behind in
      (
        cut,
        fresh,
        count,
        size,
        cap,
        subst (λ (xs : List TintBin). behind ≡ taken oldest behind ++ drop_old oldest xs) (sym tmo)
            old,
        subst (λ (xs : List TintBin). IsFresh oldest (drop_old oldest xs)) (sym tmo) young,
      )

  -- At a time of at least 90 s and below 2 ^ 62, for an average round trip and a deviation below
  -- 2 ^ 60 microseconds: `TimeoutDataOut` takes from the front of `data_out_` the longest run of chunks
  -- that are cleared or were sent longer ago than the timeout of an acknowledgement under LEDBAT, or
  -- three times that otherwise; the timeout is the average round trip with four deviations of at least
  -- 50 ms, and at most 30 s. Those taken that are neither cleared nor acknowledged are counted as
  -- losses, taken off the size, which wraps in 32 bits, lift the hint capacity, and are put behind
  -- `data_out_tmo_`. From the front of that queue, with the losses, the longest run of chunks that are
  -- cleared or older than 10 s goes.
  pub timeout_data_out-losses :
      let timeout = min (c.rtt_avg + 4 * max c.dev_avg 50000) 30000000 in
      GivesUp (now - patience c.send_control * timeout) (now - 10000000) c (timeout_data_out now c)
  timeout_data_out-losses =
      let timeout = min (c.rtt_avg + 4 * max c.dev_avg 50000) 30000000 in
      let ten : sub64 now max_possible_rtt ≡ now - 10000000 = omega arith in
      subst
        (λ (x : Tint).
          GivesUp (now - patience c.send_control * timeout) x c (timeout_data_out now c))
        ten
        (subst (λ (x : Tint). GivesUp x (sub64 now max_possible_rtt) c (timeout_data_out now c))
          (expiry-eq c.send_control) GivesUp-expiry)
