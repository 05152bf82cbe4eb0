-- ===== src/SendControl/State.antt =====
-- The fields of `Channel` that the send control reads and writes, and its times (swift.h).
use libswift.Base.{ℕ, ◌*◌, ◌/◌, ◌^◌, Bool, List, ltb, if◌then◌else◌}
use libswift.Word.{add64, neg64, u64}
use libswift.Bin.{Bin}
use libswift.BinSet.{BinSet}

-- `tint`, a signed 64-bit count of microseconds, in two's complement.
abbrev pub Tint : Type 0
Tint = ℕ

-- `a < b` on signed numbers.
abbrev pub slt : Tint → Tint → Bool
slt a b = ltb (add64 a (2 ^ 63)) (add64 b (2 ^ 63))

-- `a / k` for a positive `k`, rounded towards 0.
abbrev pub sdiv : Tint → ℕ → Tint
sdiv a k = if ltb a (2 ^ 63) then a / k else neg64 (neg64 a / k)

-- `std::max`
abbrev pub max_tint : Tint → Tint → Tint
max_tint a b = if slt a b then b else a

abbrev pub tint_sec : Tint
tint_sec = 1000000

abbrev pub tint_msec : Tint
tint_msec = 1000

abbrev pub tint_never : Tint
tint_never = 0x3fffffffffffffff

abbrev pub min_dev : Tint
min_dev = 50 * tint_msec

abbrev pub max_send_interval : Tint
max_send_interval = tint_sec * 58

abbrev pub ledbat_target : Tint
ledbat_target = tint_msec * 25

abbrev pub max_possible_rtt : Tint
max_possible_rtt = tint_sec * 10

-- The `float` arithmetic of the window, with its conversions from and to integers. `gain` is
-- `LEDBAT_GAIN`, `half` and `four_fifths` are the ratios 0.5 and 0.8.
pub record Floats : Type 1 where
  pub Float : Type 0
  pub of_int : ℕ → Float
  pub of_tint : Tint → Float
  pub to_tint : Float → Tint
  pub to_uint32 : Float → ℕ
  pub add : Float → Float → Float
  pub mul : Float → Float → Float
  pub div : Float → Float → Float
  pub lt : Float → Float → Bool
  pub le : Float → Float → Bool
  pub gain : Float
  pub half : Float
  pub four_fifths : Float

pub data Mode : Type 0 where
  keep_alive_control ping_pong_control slow_start_control aimd_control ledbat_control
        close_control :
      Mode

-- `send_control_reason_t`; `no_reason` is its `NONE`.
pub data Reason : Type 0 where
  no_reason nothing_to_send nothing_received ping_pong_no_response long_send_interval : Reason

pub record TintBin : Type 0 where
  pub time : Tint
  pub bin : Bin

-- The counters are C integers that only count up from 0.
pub record Channel (fl : Floats) (b : BinSet) : Type 0 where
  pub send_control : Mode
  pub keepalivereason : Reason
  pub cwnd : fl.Float
  pub rtt_avg : Tint
  pub dev_avg : Tint
  pub send_interval : Tint
  pub last_send_time : Tint
  pub last_recv_time : Tint
  pub last_data_out_time : Tint
  pub last_loss_time : Tint
  pub reschedule_delay : Tint
  pub sent_since_recv : ℕ
  pub dgrams_sent : ℕ
  pub ack_rcvd_recent : ℕ
  pub ack_not_rcvd_recent : ℕ
  pub hint_in_size : ℕ
  pub data_in_time : Tint
  pub live_have_no_hint : Bool
  pub lastrecvwaskeepalive : Bool
  pub lastsendwaskeepalive : Bool
  pub reverse_pex_out : List TintBin
  pub ack_in : b.Set
  pub data_out : List TintBin
  pub data_out_size : ℕ
  pub data_out_tmo : List TintBin
  pub data_out_cap : Bin
  pub owd_min_bins : List Tint
  pub owd_current : List (Tint × Tint)
  pub owd_cur : Tint
  pub owd_min : Tint

-- `ack_timeout`
unfoldable pub ack_timeout : {fl : Floats} {b : BinSet} → Channel fl b → Tint
ack_timeout c =
    let dev = if slt c.dev_avg min_dev then min_dev else c.dev_avg in
    let tmo = add64 c.rtt_avg (u64 (dev * 4)) in
    if slt tmo (30 * tint_sec) then tmo else 30 * tint_sec
