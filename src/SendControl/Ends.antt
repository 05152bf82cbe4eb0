-- ===== src/SendControl/Ends.antt =====
-- `NextSendTime` and `SwitchSendControl` call one another only a few times.
use libswift.Base.{
  ℕ, zero, suc, ◌+◌, ◌≤◌, ◌<◌, ◌≡◌, ◌≢◌, refl, ap, sym, ◌∙◌, arith, Bool-cases, inl, inr, List, [],
  ◌∷◌, ◌==◌, if◌then◌else◌,
}
use libswift.BinSet.{BinSet}
use libswift.SendControl.State.{
  Tint, Floats, Mode, keep_alive_control, ping_pong_control, slow_start_control, aimd_control,
  ledbat_control, close_control, Reason, no_reason, nothing_to_send, nothing_received,
  ping_pong_no_response, long_send_interval, TintBin, Channel,
}
use libswift.SendControl.Timeout.{timeout_data_out}
use libswift.SendControl.Modes.{
  Decision, send_at, switch_to, undefined, keep_alive, ping_pong, slow_start, aimd, ledbat,
  cwnd_rate, keep_alive_resume, keep_alive_wait, avoid_sending, ledbat_measured,
}
use libswift.SendControl.Next.{
  restart, prepare, enter, decide, Outcome, sends, faults, out_of_fuel, next_send_time,
  switch_send_control,
}

-- The calls of `NextSendTime` that a mode can take, with and without acknowledgements that are not
-- counted yet. Every mode that goes on to send by its window uses them up.
abbrev rounds : Mode → ℕ → ℕ
rounds keep_alive_control acks = if acks == 0 then 2 else 5
rounds ping_pong_control acks = if acks == 0 then 3 else 6
rounds slow_start_control acks = 4
rounds aimd_control acks = 3
rounds ledbat_control acks = 3
rounds close_control acks = 1

rounds-le : (m : Mode) (acks : ℕ) → rounds m acks ≤ 6
rounds-le keep_alive_control acks = ground arith
rounds-le ping_pong_control acks = ground arith
rounds-le slow_start_control acks = omega arith
rounds-le aimd_control acks = omega arith
rounds-le ledbat_control acks = omega arith
rounds-le close_control acks = omega arith

module _ (fl : Floats) (b : BinSet) where
  -- A decision to switch leads to a mode that takes fewer rounds than `k`.
  Lower : ℕ → Decision fl b → Type 0
  Lower k (send_at t c) = Unit
  Lower k (switch_to m c) = rounds m c.ack_rcvd_recent < k
  Lower k undefined = Unit

  avoid-Lower : (k : ℕ) (c : Channel fl b) (xs : List TintBin) → Lower k (avoid_sending fl b c xs)
  unfolding Lower avoid_sending
  avoid-Lower k c [] = tt
  avoid-Lower k c (x ∷ xs) = ground arith

  cwnd_rate-Lower :
      (k : ℕ) (now : Tint) (c : Channel fl b)
      → rounds keep_alive_control c.ack_rcvd_recent < k
      → Lower k (cwnd_rate fl b now c)
  unfolding Lower cwnd_rate
  cwnd_rate-Lower k now c h = ground (arith, avoid-Lower k _ c.data_out)

  ping_pong-Lower :
      (now : Tint) (c : Channel fl b)
      → Lower (rounds ping_pong_control c.ack_rcvd_recent) (ping_pong fl b now c)
  unfolding Lower ping_pong
  ping_pong-Lower now c = ground arith

  wait-Lower : (k : ℕ) (c : Channel fl b) (xs : List TintBin) → Lower k (keep_alive_wait fl b c xs)
  unfolding Lower keep_alive_wait
  wait-Lower k c [] = tt
  wait-Lower k c (x ∷ xs) = tt

  resume-Lower : (c : Channel fl b) (r : Reason) → Lower 5 (keep_alive_resume fl b c r)
  unfolding Lower keep_alive_resume
  resume-Lower c nothing_to_send = omega arith
  resume-Lower c no_reason = omega arith
  resume-Lower c nothing_received = omega arith
  resume-Lower c ping_pong_no_response = omega arith
  resume-Lower c long_send_interval = omega arith

  keep_alive-Lower :
      (now : Tint) (c : Channel fl b)
      → Lower (rounds keep_alive_control c.ack_rcvd_recent) (keep_alive fl b now c)
  unfolding Lower keep_alive
  keep_alive-Lower now c =
      ground (arith, resume-Lower c c.keepalivereason, wait-Lower _ c c.reverse_pex_out)

  slow_start-Lower : (now : Tint) (c : Channel fl b) → Lower 4 (slow_start fl b now c)
  unfolding Lower slow_start
  slow_start-Lower now c = ground (arith, cwnd_rate-Lower 4 now)

  aimd-Lower : (now : Tint) (c : Channel fl b) → Lower 3 (aimd fl b now c)
  unfolding Lower aimd
  aimd-Lower now c = cwnd_rate-Lower 3 now _ (omega arith)

  measured-Lower :
      (now : Tint) (c : Channel fl b) (r : ℕ × Tint) → Lower 3 (ledbat_measured fl b now c r)
  unfolding Lower ledbat_measured
  measured-Lower now c (zero, total) = tt
  measured-Lower now c (suc n, total) = cwnd_rate-Lower 3 now _ (omega arith)

  ledbat-Lower : (now : Tint) (c : Channel fl b) → Lower 3 (ledbat fl b now c)
  unfolding Lower ledbat
  ledbat-Lower now c = elim (Bool-cases (c.ack_rcvd_recent == 0)) [
    | inl e ↦ rw e (cwnd_rate-Lower 3 now c (rw e (omega arith)))
    | inr e ↦ rw e (measured-Lower now c _)
  ]

  decide-Lower :
      (m : Mode) (now : Tint) (c : Channel fl b)
      → Lower (rounds m c.ack_rcvd_recent) (decide fl b m now c)
  unfolding decide Lower
  decide-Lower keep_alive_control now c = keep_alive-Lower now c
  decide-Lower ping_pong_control now c = ping_pong-Lower now c
  decide-Lower slow_start_control now c = slow_start-Lower now c
  decide-Lower aimd_control now c = aimd-Lower now c
  decide-Lower ledbat_control now c = ledbat-Lower now c
  decide-Lower close_control now c = tt

  restart-acks :
      (c : Channel fl b) (r : Reason) → (restart fl b c r).ack_rcvd_recent ≡ c.ack_rcvd_recent
  unfolding restart
  restart-acks c nothing_to_send = refl
  restart-acks c no_reason = refl
  restart-acks c nothing_received = refl
  restart-acks c ping_pong_no_response = refl
  restart-acks c long_send_interval = refl

  -- Entering a mode keeps the acknowledgements and sets the mode.
  enter-acks :
      (m : Mode) (c : Channel fl b)
      → ((enter fl b m c).ack_rcvd_recent ≡ c.ack_rcvd_recent) × ((enter fl b m c).send_control ≡ m)
  unfolding enter prepare
  enter-acks keep_alive_control c = (restart-acks _ c.keepalivereason, refl)
  enter-acks ping_pong_control c = (refl, refl)
  enter-acks slow_start_control c = (refl, refl)
  enter-acks aimd_control c = (refl, refl)
  enter-acks ledbat_control c = (refl, refl)
  enter-acks close_control c = (refl, refl)

  -- The rest of `NextSendTime` after a decision.
  abbrev after : ℕ → Tint → Decision fl b → Outcome fl b
  after fuel now (send_at time c) = sends time c
  after fuel now (switch_to m c) = next_send_time fl b fuel now (enter fl b m c)
  after fuel now undefined = faults

  next-after :
      (fuel : ℕ) (now : Tint) (c : Channel fl b)
      → next_send_time fl b (suc fuel) now c
        ≡ after fuel now (decide fl b c.send_control now (timeout_data_out now c))
  unfolding next_send_time
  next-after fuel now c = refl

  rounds-pos : (m : Mode) (acks : ℕ) → 1 ≤ rounds m acks
  rounds-pos keep_alive_control acks = ground arith
  rounds-pos ping_pong_control acks = ground arith
  rounds-pos slow_start_control acks = omega arith
  rounds-pos aimd_control acks = omega arith
  rounds-pos ledbat_control acks = omega arith
  rounds-pos close_control acks = omega arith

  -- The fuel is enough.
  abbrev pub Settles : ℕ → Tint → Channel fl b → Type 0
  Settles fuel now c =
      (next_send_time fl b fuel now c ≢ out_of_fuel)
      × ((k : ℕ) → next_send_time fl b (k + fuel) now c ≡ next_send_time fl b fuel now c)

  sends_ne : (t : Tint) (c : Channel fl b) → sends t c ≢ out_of_fuel
  sends_ne t c e = absurd (ground (arith, e))

  faults_ne : ◌≢◌ {A = Outcome fl b} faults out_of_fuel
  faults_ne e = absurd (ground (arith, e))

  -- After a decision, the fuel is enough if it is for the modes below.
  after-Settles :
      (fuel bound : ℕ) (now : Tint)
      → bound ≤ suc fuel
      → ((c : Channel fl b) → rounds c.send_control c.ack_rcvd_recent ≤ fuel → Settles fuel now c)
      → (d : Decision fl b) → Lower bound d
      → (after fuel now d ≢ out_of_fuel) × ((k : ℕ) → after (k + fuel) now d ≡ after fuel now d)
  unfolding Lower
  after-Settles fuel bound now h ih (send_at t c) low = (sends_ne t c, λ k. refl)
  after-Settles fuel bound now h ih (switch_to m c) low =
      ih (enter fl b m c) (rw ((enter-acks m c).1, (enter-acks m c).0) (omega (arith, low, h)))
  after-Settles fuel bound now h ih undefined low = (faults_ne, λ k. refl)

  next-Settles :
      (fuel : ℕ) (now : Tint) (c : Channel fl b)
      → rounds c.send_control c.ack_rcvd_recent ≤ fuel
      → Settles fuel now c
  unfolding timeout_data_out
  next-Settles zero now c h = absurd (omega (arith, rounds-pos c.send_control c.ack_rcvd_recent))
  next-Settles (suc fuel) now c h =
      let c1 = timeout_data_out now c in
      let bound = rounds c.send_control c.ack_rcvd_recent in
      let (ne, same) =
        after-Settles fuel bound now h (next-Settles fuel now) (decide fl b c.send_control now c1)
          (decide-Lower c.send_control now c1) in
      (
        λ e. ne (sym (next-after fuel now c) ∙ e),
        λ k.
            let e : k + suc fuel ≡ suc (k + fuel) = omega arith in
            ap (λ (x : ℕ). next_send_time fl b x now c) e
            ∙ next-after (k + fuel) now c
            ∙ same k
            ∙ sym (next-after fuel now c),
      )

-- Whatever the channel's mode and state, `NextSendTime` ends within six calls of itself, the first
-- one counted, and `SwitchSendControl` too: more fuel gives the same outcome, and it is not that
-- the fuel ran out.
pub next_send_time-ends :
    (fl : Floats) (b : BinSet) (now : Tint) (c : Channel fl b) (m : Mode)
    → Settles fl b 6 now c
      × (switch_send_control fl b 6 m now c ≢ out_of_fuel)
      × ((k : ℕ) → switch_send_control fl b (k + 6) m now c ≡ switch_send_control fl b 6 m now c)
unfolding switch_send_control
next_send_time-ends fl b now c m =
    let (ne, same) =
      next-Settles fl b 6 now (enter fl b m c)
        (rounds-le (enter fl b m c).send_control (enter fl b m c).ack_rcvd_recent) in
    (next-Settles fl b 6 now c (rounds-le c.send_control c.ack_rcvd_recent), ne, same)
