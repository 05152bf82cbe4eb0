-- ===== src/Tests/Send.antt =====
-- The theorems about the send control, applied to one channel, with whole numbers for the window.
use Prim.Native.Nat.{min, max}
use libswift.Base.{ℕ, ◌+◌, ◌-◌, ◌*◌, ◌/◌, ◌%◌, ◌^◌, ◌≡◌, ◌≢◌, arith, false, [], ◌∷◌, ltb, leb}
use libswift.SendControl.State.{Floats, slow_start_control, ping_pong_control, no_reason, Channel}
use libswift.SendControl.Timeout.{timeout_data_out}
use libswift.SendControl.Next.{out_of_fuel, switch_send_control}
use libswift.SendControl.Ends.{Settles, next_send_time-ends}
use libswift.SendControl.Losses.{GivesUp, timeout_data_out-losses}
use libswift.Tests.Model.{sets}

-- A window of whole numbers.
abbrev whole : Floats
whole = record {
  Float = ℕ;
  of_int = λ n. n;
  of_tint = λ t. t;
  to_tint = λ x. x;
  to_uint32 = λ x. x % 2 ^ 32;
  add = λ x y. x + y;
  mul = λ x y. x * y;
  div = λ x y. x / y;
  lt = ltb;
  le = leb;
  gain = 0;
  half = 1;
  four_fifths = 1;
}

-- A channel that has sent two chunks, and got one acknowledgement.
abbrev channel : Channel whole sets
channel = record {
  send_control = ping_pong_control;
  keepalivereason = no_reason;
  cwnd = 2;
  rtt_avg = 100000;
  dev_avg = 1000;
  send_interval = 20000;
  last_send_time = 900000;
  last_recv_time = 950000;
  last_data_out_time = 900000;
  last_loss_time = 0;
  reschedule_delay = 0;
  sent_since_recv = 1;
  dgrams_sent = 12;
  ack_rcvd_recent = 1;
  ack_not_rcvd_recent = 0;
  hint_in_size = 1;
  data_in_time = 0x3fffffffffffffff;
  live_have_no_hint = false;
  lastrecvwaskeepalive = false;
  lastsendwaskeepalive = false;
  reverse_pex_out = [];
  ack_in = λ i. false;
  data_out = record { time = 100; bin = 0 } ∷ record { time = 4000000; bin = 2 } ∷ [];
  data_out_size = 2;
  data_out_tmo = [];
  data_out_cap = 0;
  owd_min_bins = 5000 ∷ 6000 ∷ [];
  owd_current = (7000, 900000) ∷ [];
  owd_cur = 7000;
  owd_min = 5000;
}

next_send_time-ends_example :
    Settles whole sets 6 5000000 channel
    × (switch_send_control whole sets 6 slow_start_control 5000000 channel ≢ out_of_fuel)
    × ((k : ℕ)
        → switch_send_control whole sets (k + 6) slow_start_control 5000000 channel
          ≡ switch_send_control whole sets 6 slow_start_control 5000000 channel)
next_send_time-ends_example = next_send_time-ends whole sets 5000000 channel slow_start_control

timeout_data_out-losses_example :
    let timeout = min (channel.rtt_avg + 4 * max channel.dev_avg 50000) 30000000 in
    GivesUp (100000000 - 3 * timeout) 90000000 channel (timeout_data_out 100000000 channel)
timeout_data_out-losses_example =
    timeout_data_out-losses whole sets 100000000 channel (omega arith) (omega arith) (omega arith)
      (omega arith)
