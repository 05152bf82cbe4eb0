-- ===== src/SendControl/Timeout.antt =====
-- sendrecv.cpp: `Channel::TimeoutDataOut`, which gives up chunks that were sent too long ago.
use mathlib.Core.List.{reverse}
use libswift.Base.{
  ℕ, zero, suc, ◌+◌, ◌-◌, ◌%◌, ◌^◌, Bool, not, ◌&&◌, ◌||◌, List, [], ◌∷◌, ◌++◌, if◌then◌else◌, ◌==◌,
  length,
}
use libswift.Word.{sub64, shl64}
use libswift.Bin.{Bin, none_bin, all_bin, of_layer}
use libswift.BinSet.{BinSet}
use libswift.SendControl.State.{
  Tint, slt, tint_never, max_possible_rtt, Floats, Mode, ledbat_control, TintBin, Channel,
  ack_timeout,
}

-- `x == tintbin()`
unfoldable pub is_cleared : TintBin → Bool
unfolding of_layer
is_cleared x = x.time == tint_never && x.bin == none_bin

-- What the first loop changes, `data_out_` apart.
pub record Losses : Type 0 where
  pub ack_not_rcvd : ℕ
  pub cap : Bin
  pub tmo : List TintBin
  pub size : ℕ

-- The size is a `uint32_t`.
unfoldable pub lose : TintBin → Losses → Losses
unfolding of_layer
lose x l = record {
  ack_not_rcvd = l.ack_not_rcvd + 1;
  cap = all_bin;
  tmo = l.tmo ++ x ∷ [];
  size = (l.size + 2 ^ 32 - 1) % 2 ^ 32;
}

-- The loop over `data_out_`.
unfoldable pub drop_expired :
    (b : BinSet) → b.Set → Tint → List TintBin → Losses → List TintBin × Losses
unfolding is_cleared lose
drop_expired b ack timeout [] l = ([], l)
drop_expired b ack timeout (x ∷ xs) l =
    let lost = not (is_cleared x) && b.is_empty ack x.bin in
    let rest = drop_expired b ack timeout xs (if lost then lose x l else l) in
    if slt x.time timeout || is_cleared x then rest else (x ∷ xs, l)

-- The loop over `data_out_tmo_`.
unfoldable pub drop_old : Tint → List TintBin → List TintBin
unfolding is_cleared
drop_old oldest [] = []
drop_old oldest (x ∷ xs) =
    let rest = drop_old oldest xs in if is_cleared x || slt x.time oldest then rest else x ∷ xs

-- The loop over `owd_current_`, from its back: at most `n` samples are dropped.
unfoldable pub drop_samples : ℕ → Tint → List (Tint × Tint) → List (Tint × Tint)
drop_samples zero timeout xs = xs
drop_samples (suc n) timeout [] = []
drop_samples (suc n) timeout ((d, at) ∷ xs) =
    let rest = drop_samples n timeout xs in if slt at timeout then rest else (d, at) ∷ xs

unfoldable pub recent_samples : Tint → List (Tint × Tint) → List (Tint × Tint)
unfolding drop_samples
recent_samples timeout xs = reverse (drop_samples (length xs - 4) timeout (reverse xs))

-- The age limit: it is three times as long outside LEDBAT.
unfoldable pub expiry : {fl : Floats} {b : BinSet} → Tint → Mode → Channel fl b → Tint
unfolding ack_timeout
expiry now ledbat_control c = sub64 now (ack_timeout c)
expiry now _ c = sub64 (sub64 now (ack_timeout c)) (shl64 (ack_timeout c) 1)

unfoldable pub timeout_data_out : {fl : Floats} {b : BinSet} → Tint → Channel fl b → Channel fl b
unfolding expiry drop_expired drop_old recent_samples
timeout_data_out {b = b} now c =
    let timeout = expiry now c.send_control c in
    let start : Losses = record {
      ack_not_rcvd = c.ack_not_rcvd_recent;
      cap = c.data_out_cap;
      tmo = c.data_out_tmo;
      size = c.data_out_size;
    } in
    let (left_over, l) = drop_expired b c.ack_in timeout c.data_out start in
    record c {
      data_out = left_over;
      ack_not_rcvd_recent = l.ack_not_rcvd;
      data_out_cap = l.cap;
      data_out_tmo = drop_old (sub64 now max_possible_rtt) l.tmo;
      data_out_size = l.size;
      owd_current = recent_samples timeout c.owd_current;
    }
