-- ===== src/SendControl/Next.antt =====
-- send_control.cpp: `NextSendTime` and `SwitchSendControl`, which call one another.
use libswift.Base.{ℕ, zero, suc}
use libswift.Bin.{all_bin, of_layer}
use libswift.BinSet.{BinSet}
use libswift.SendControl.State.{
  Tint, max_tint, tint_sec, tint_never, Floats, Mode, keep_alive_control, ping_pong_control,
  slow_start_control, aimd_control, ledbat_control, close_control, Reason, nothing_to_send, Channel,
}
use libswift.SendControl.Timeout.{timeout_data_out}
use libswift.SendControl.Modes.{
  Decision, send_at, switch_to, undefined, keep_alive, ping_pong, slow_start, aimd, ledbat,
}

module _ (fl : Floats) (b : BinSet) where
  open fl use {of_int}

  unfoldable pub restart : Channel fl b → Reason → Channel fl b
  unfolding of_layer
  restart c nothing_to_send = c
  restart c _ = record c {
    cwnd = of_int 1;
    dev_avg = max_tint tint_sec c.rtt_avg;
    data_out_cap = all_bin;
  }

  -- What `SwitchSendControl` changes before its mode is set.
  unfoldable pub prepare : Mode → Channel fl b → Channel fl b
  unfolding restart of_layer
  prepare keep_alive_control c = restart (record c { send_interval = c.rtt_avg }) c.keepalivereason
  prepare ping_pong_control c = record c {
    dev_avg = max_tint tint_sec c.rtt_avg;
    data_out_cap = all_bin;
    cwnd = of_int 1;
  }
  prepare slow_start_control c = record c { cwnd = of_int 4 }
  prepare _ c = c

  unfoldable pub enter : Mode → Channel fl b → Channel fl b
  unfolding prepare
  enter m c = record (prepare m c) { send_control = m }

  -- The switch of `NextSendTime`.
  unfoldable pub decide : Mode → Tint → Channel fl b → Decision fl b
  unfolding keep_alive ping_pong slow_start aimd ledbat
  decide keep_alive_control now c = keep_alive fl b now c
  decide ping_pong_control now c = ping_pong fl b now c
  decide slow_start_control now c = slow_start fl b now c
  decide aimd_control now c = aimd fl b now c
  decide ledbat_control now c = ledbat fl b now c
  decide close_control now c = send_at tint_never c

  pub data Outcome : Type 0 where
    sends : Tint → Channel fl b → Outcome
    faults : Outcome
    out_of_fuel : Outcome

  -- Each round is one call of `NextSendTime`.
  unfoldable pub next_send_time : ℕ → Tint → Channel fl b → Outcome
  unfolding decide enter timeout_data_out
  next_send_time zero now c = out_of_fuel
  next_send_time (suc fuel) now c = elim (decide c.send_control now (timeout_data_out now c)) [
    | send_at time c' ↦ sends time c'
    | switch_to m c' ↦ next_send_time fuel now (enter m c')
    | undefined ↦ faults
  ]

  unfoldable pub switch_send_control : ℕ → Mode → Tint → Channel fl b → Outcome
  unfolding next_send_time enter
  switch_send_control fuel m now c = next_send_time fuel now (enter m c)
