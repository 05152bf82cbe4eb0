-- ===== src/Binmap/Bytes.antt =====
-- The table of `bitmap_to_bin`: which bin it gives for a byte of a bitmap.
use libswift.Base.{
  ℕ, suc, ◌+◌, ◌*◌, ◌/◌, ◌%◌, ◌^◌, ◌≤◌, ◌<◌, ◌≡◌, ◌≢◌, refl, arith, Bool, true, false, not, ◌&&◌,
  ◌||◌, ==-eq_false, leb, ltb, ◌==◌, get_or, if◌then◌else◌, holds_below, holds_below_sound,
}
use libswift.Bin.Layout.{node}
use libswift.Binmap.Bitmap.{bitmap_bins}
use libswift.Binmap.Digits.{digit}

-- The first base bins of `b` that are set, up from digit `s`, are those of the bin `node l r`.
abbrev pub IsFirst : ℕ → ℕ → ℕ → Type 0
IsFirst b l r =
    ((j : ℕ) → j < r * 2 ^ l → digit b j ≡ false)
    × ((j : ℕ) → r * 2 ^ l ≤ j → j < r * 2 ^ l + 2 ^ l → digit b j ≡ true)

abbrev pub FirstIn : ℕ → ℕ → ℕ → Type 0
FirstIn width b v = (l : ℕ) × (r : ℕ) × (v ≡ node l r) × (r * 2 ^ l + 2 ^ l ≤ width) × IsFirst b l r

-- The layer of one of the first 15 bins.
abbrev layer_of : ℕ → ℕ
layer_of t = if t == 7 then 3 else if t % 8 == 3 then 2 else if t % 4 == 1 then 1 else 0

abbrev digit_test : ℕ → ℕ → ℕ → ℕ → Bool
digit_test x l r j =
    if ltb j (r * 2 ^ l)
    then not (digit x j)
    else if ltb j (r * 2 ^ l + 2 ^ l)
    then digit x j
    else true

abbrev bin_test : ℕ → ℕ → ℕ → ℕ → Bool
bin_test x t l r =
    leb t 14
    && (t == node l r)
    && leb (r * 2 ^ l + 2 ^ l) 8
    && (not (t == 7) || x == 255)
    && holds_below 8 (digit_test x l r)

abbrev byte_test : ℕ → Bool
byte_test x =
    let t = get_or bitmap_bins x 0 in
    let l = layer_of t in if x == 0 then t == 255 else bin_test x t l (t / 2 ^ suc l)

bytes_checked : holds_below 256 byte_test ≡ true
unfolding holds_below
bytes_checked = refl

digit_test_sound :
    (x l r : ℕ) → r * 2 ^ l + 2 ^ l ≤ 8 → holds_below 8 (digit_test x l r) ≡ true → IsFirst x l r
digit_test_sound x l r fits e = (
  λ j h. let at = holds_below_sound 8 (digit_test x l r) j e (omega arith) in ground (arith, at),
  λ j g h. let at = holds_below_sound 8 (digit_test x l r) j e (omega arith) in ground (arith, at),
)

abbrev pub Named : ℕ → ℕ → Type 0
Named x t = (t ≤ 14) × (t ≡ 7 → x ≡ 255) × FirstIn 8 x t

bin_test_sound : (x t l r : ℕ) → bin_test x t l r ≡ true → Named x t
bin_test_sound x t l r e =
    let small : t ≤ 14 = ground (arith, e) in
    let named : t ≡ node l r = ground (arith, e) in
    let fits : r * 2 ^ l + 2 ^ l ≤ 8 = ground (arith, e) in
    let digits : holds_below 8 (digit_test x l r) ≡ true = ground (arith, e) in
    (small, λ q. ground (arith, e, q), (l, r, named, fits, digit_test_sound x l r fits digits))

pub byte-Named : (x : ℕ) → x < 256 → x ≢ 0 → Named x (get_or bitmap_bins x 0)
byte-Named x h nz =
    let t = get_or bitmap_bins x 0 in
    let e = holds_below_sound 256 byte_test x bytes_checked h in
    let l = layer_of t in bin_test_sound x t l (t / 2 ^ suc l) (only x t nz e)
  where
    only :
        (x t : ℕ)
        → x ≢ 0
        → (if x == 0 then t == 255 else bin_test x t (layer_of t) (t / 2 ^ suc (layer_of t))) ≡ true
        → bin_test x t (layer_of t) (t / 2 ^ suc (layer_of t)) ≡ true
    only x t nz e = rw (==-eq_false x 0 nz) at e
