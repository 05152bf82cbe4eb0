-- ===== src/SendControl/Modes.antt =====
-- send_control.cpp: the functions of the single modes. Each ends by a send time or by a call of
-- `SwitchSendControl`, or does what C leaves undefined.
use libswift.Base.{
  ℕ, zero, suc, ◌+◌, ◌*◌, ◌/◌, false, not, ◌&&◌, ◌||◌, List, [], ◌∷◌, if◌then◌else◌, ◌==◌, leb, ltb,
}
use libswift.Word.{add64, sub64, u64, shl64}
use libswift.BinSet.{BinSet}
use libswift.SendControl.State.{
  Tint, slt, sdiv, max_tint, tint_sec, tint_never, max_send_interval, ledbat_target, Floats, Mode,
  keep_alive_control, slow_start_control, ledbat_control, close_control, Reason, no_reason,
  nothing_to_send, TintBin, Channel, ack_timeout,
}

module _ (fl : Floats) (b : BinSet) where
  open fl use {Float, of_int, of_tint, to_tint, to_uint32, add, mul, div, lt, le}

  pub data Decision : Type 0 where
    send_at : Tint → Channel fl b → Decision
    switch_to : Mode → Channel fl b → Decision
    undefined : Decision

  -- The interval after another keep-alive.
  unfoldable pub keep_alive_interval : Channel fl b → Tint
  keep_alive_interval c =
      let doubled = shl64 c.send_interval 1 in
      let next =
        if c.lastrecvwaskeepalive && c.lastsendwaskeepalive
        then doubled
        else if c.lastrecvwaskeepalive || c.lastsendwaskeepalive
        then (if ltb c.sent_since_recv 4 then c.rtt_avg else doubled)
        else if leb c.sent_since_recv 1
        then c.rtt_avg
        else doubled in
      if slt max_send_interval next then max_send_interval else next

  -- `KeepAliveNextSendTime` from the check of `reverse_pex_out_` on.
  unfoldable pub keep_alive_wait : Channel fl b → List TintBin → Decision
  unfolding keep_alive_interval
  keep_alive_wait c [] =
      let interval = keep_alive_interval c in
      send_at (add64 c.last_send_time interval) (record c { send_interval = interval })
  keep_alive_wait c (x ∷ xs) = send_at x.time c

  unfoldable pub keep_alive_resume : Channel fl b → Reason → Decision
  keep_alive_resume c nothing_to_send =
      switch_to ledbat_control (record c { keepalivereason = no_reason })
  keep_alive_resume c _ = switch_to slow_start_control c

  unfoldable pub keep_alive : Tint → Channel fl b → Decision
  unfolding keep_alive_wait keep_alive_resume
  keep_alive now c =
      if leb 3 c.sent_since_recv && slt c.last_recv_time (sub64 now (3 * max_send_interval))
      then switch_to close_control c
      else if not (c.ack_rcvd_recent == 0) && not (c.hint_in_size == 0)
      then keep_alive_resume c c.keepalivereason
      else if not (c.data_in_time == tint_never)
      then send_at now c
      else if c.live_have_no_hint
      then send_at now (record c { live_have_no_hint = false })
      else keep_alive_wait c c.reverse_pex_out

  unfoldable pub ping_pong : Tint → Channel fl b → Decision
  unfolding ack_timeout
  ping_pong now c =
      if leb 10 c.dgrams_sent
      then switch_to keep_alive_control c
      else if not (c.ack_rcvd_recent == 0)
      then switch_to slow_start_control c
      else if not (c.data_in_time == tint_never)
      then send_at now c
      else if slt c.last_send_time c.last_recv_time
      then send_at now c
      else if c.last_send_time == 0
      then send_at now c
      else send_at (add64 c.last_send_time (ack_timeout c)) c

  -- No more is sent until the oldest chunk times out; the code asserts that there is one.
  unfoldable pub avoid_sending : Channel fl b → List TintBin → Decision
  unfolding ack_timeout
  avoid_sending c [] = undefined
  avoid_sending c (x ∷ xs) =
      if x.time == tint_never then undefined else send_at (add64 x.time (ack_timeout c)) c

  unfoldable pub cwnd_rate : Tint → Channel fl b → Decision
  unfolding avoid_sending
  cwnd_rate now c =
      let c' = record c { send_interval = to_tint (div (of_tint c.rtt_avg) c.cwnd) } in
      if not (c.data_in_time == tint_never)
      then send_at now c
      else if slt c.last_recv_time (sub64 now (u64 (c.rtt_avg * 8)))
      then switch_to keep_alive_control c
      else if slt (u64 (max_tint c.rtt_avg tint_sec * 4)) c'.send_interval
      then switch_to keep_alive_control c'
      else if ltb c.data_out_size (to_uint32 c.cwnd) || le (of_int 1) c.cwnd
      then send_at (sub64 (add64 c.last_data_out_time c'.send_interval) c.reschedule_delay) c'
      else avoid_sending c' c.data_out

  unfoldable pub back_off : Float → Tint → Channel fl b → Channel fl b
  back_off ratio now c =
      let c' = record c { ack_not_rcvd_recent = 0 } in
      if slt c.last_loss_time (sub64 now c.rtt_avg)
      then record c' { cwnd = mul c.cwnd ratio; last_loss_time = now }
      else c'

  unfoldable pub slow_start : Tint → Channel fl b → Decision
  unfolding back_off cwnd_rate
  slow_start now c =
      if not (c.ack_not_rcvd_recent == 0)
      then switch_to ledbat_control (back_off fl.half now c)
      else if lt (div (of_tint c.rtt_avg) c.cwnd) (of_tint (tint_sec / 20))
      then switch_to ledbat_control c
      else cwnd_rate now
          (record c { cwnd = add c.cwnd (of_int c.ack_rcvd_recent); ack_rcvd_recent = 0 })

  -- The window after acknowledgements in AIMD.
  unfoldable pub aimd_window : Channel fl b → Float
  aimd_window c =
      if c.ack_rcvd_recent == 0
      then c.cwnd
      else if lt (of_int 1) c.cwnd
      then add c.cwnd (div (of_int c.ack_rcvd_recent) c.cwnd)
      else mul c.cwnd (of_int 2)

  unfoldable pub aimd : Tint → Channel fl b → Decision
  unfolding back_off aimd_window cwnd_rate
  aimd now c =
      let c' = if c.ack_not_rcvd_recent == 0 then c else back_off fl.half now c in
      cwnd_rate now (record c' { cwnd = aimd_window c'; ack_rcvd_recent = 0 })

  -- The least of the ten delay bins, from a bound on.
  unfoldable pub least : Tint → List Tint → Tint
  least m [] = m
  least m (x ∷ xs) = least (if slt x m then x else m) xs

  -- The loop over `owd_current_`: the number of samples used, and their sum.
  unfoldable pub samples : Tint → ℕ → Tint → List (Tint × Tint) → ℕ × Tint
  samples timeout count total [] = (count, total)
  samples timeout count total ((d, at) ∷ xs) =
      let rest = samples timeout (count + 1) (add64 total d) xs in
      if slt timeout at || ltb count 4 then rest else (count, total)

  -- The window after a measured delay.
  unfoldable pub ledbat_window : Channel fl b → Float
  ledbat_window c =
      let queueing_delay = sub64 c.owd_cur c.owd_min in
      let off_target = sub64 ledbat_target queueing_delay in
      let moved = add c.cwnd (div (mul fl.gain (of_tint off_target)) c.cwnd) in
      let kept = if lt moved (of_int 1) then of_int 1 else moved in
      if c.owd_cur == tint_never || c.owd_min == tint_never then of_int 40 else kept

  -- A division by a count of 0 is undefined.
  unfoldable pub ledbat_measured : Tint → Channel fl b → ℕ × Tint → Decision
  unfolding back_off cwnd_rate ledbat_window least
  ledbat_measured now c (zero, total) = undefined
  ledbat_measured now c (suc n, total) =
      let c1 = record c {
        owd_min = least tint_never c.owd_min_bins;
        owd_cur = sdiv total (suc n);
      } in
      let c2 = if c.ack_not_rcvd_recent == 0 then c1 else back_off fl.four_fifths now c1 in
      cwnd_rate now (record c2 { cwnd = ledbat_window c2; ack_rcvd_recent = 0 })

  unfoldable pub ledbat : Tint → Channel fl b → Decision
  unfolding ledbat_measured samples cwnd_rate
  ledbat now c =
      if c.ack_rcvd_recent == 0
      then cwnd_rate now c
      else ledbat_measured now c (samples (sub64 now c.rtt_avg) 0 0 c.owd_current)
