-- ===== src/Binmap/Bitmap.antt =====
-- binmap.cpp: the table of the bitmaps of 32 base bins, and the way back from a bitmap to a bin. A
-- `bitmap_t` is a signed 32-bit integer; it stands as its 32-bit pattern.
use Prim.Native.Nat.{bit_and}
use libswift.Base.{
  ℕ, ◌+◌, ◌-◌, ◌*◌, ◌/◌, ◌%◌, ◌^◌, not, Option, none, some, List, [], ◌∷◌, ◌==◌, ltb, leb,
  if◌then◌else◌, get_or,
}
use libswift.Word.{add64}
use libswift.Bin.{Bin, base_left}

-- `b >> k`, which keeps the sign.
abbrev pub shift_signed : ℕ → ℕ → ℕ
shift_signed b k = if ltb b (2 ^ 31) then b / 2 ^ k else (b + (2 ^ k - 1) * 2 ^ 32) / 2 ^ k

abbrev pub bitmap_empty : ℕ
bitmap_empty = 0

abbrev pub bitmap_filled : ℕ
bitmap_filled = 2 ^ 32 - 1

-- `BITMAP`, indexed by the low digits of a bin.
abbrev pub bitmaps : List ℕ
bitmaps =
    0x00000001 ∷ 0x00000003 ∷ 0x00000002 ∷ 0x0000000f ∷ 0x00000004 ∷ 0x0000000c ∷ 0x00000008
    ∷ 0x000000ff ∷ 0x00000010 ∷ 0x00000030 ∷ 0x00000020 ∷ 0x000000f0 ∷ 0x00000040 ∷ 0x000000c0
    ∷ 0x00000080 ∷ 0x0000ffff ∷ 0x00000100 ∷ 0x00000300 ∷ 0x00000200 ∷ 0x00000f00 ∷ 0x00000400
    ∷ 0x00000c00 ∷ 0x00000800 ∷ 0x0000ff00 ∷ 0x00001000 ∷ 0x00003000 ∷ 0x00002000 ∷ 0x0000f000
    ∷ 0x00004000 ∷ 0x0000c000 ∷ 0x00008000 ∷ 0xffffffff ∷ 0x00010000 ∷ 0x00030000 ∷ 0x00020000
    ∷ 0x000f0000 ∷ 0x00040000 ∷ 0x000c0000 ∷ 0x00080000 ∷ 0x00ff0000 ∷ 0x00100000 ∷ 0x00300000
    ∷ 0x00200000 ∷ 0x00f00000 ∷ 0x00400000 ∷ 0x00c00000 ∷ 0x00800000 ∷ 0xffff0000 ∷ 0x01000000
    ∷ 0x03000000 ∷ 0x02000000 ∷ 0x0f000000 ∷ 0x04000000 ∷ 0x0c000000 ∷ 0x08000000 ∷ 0xff000000
    ∷ 0x10000000 ∷ 0x30000000 ∷ 0x20000000 ∷ 0xf0000000 ∷ 0x40000000 ∷ 0xc0000000 ∷ 0x80000000
    ∷ 0xffffffff ∷ []

abbrev pub bitmap_bins : List ℕ
bitmap_bins =
    0xff ∷ 0 ∷ 2 ∷ 1 ∷ 4 ∷ 0 ∷ 2 ∷ 1 ∷ 6 ∷ 0 ∷ 2 ∷ 1 ∷ 5 ∷ 0 ∷ 2 ∷ 3 ∷ 8 ∷ 0 ∷ 2 ∷ 1 ∷ 4 ∷ 0 ∷ 2 ∷ 1
    ∷ 6 ∷ 0 ∷ 2 ∷ 1 ∷ 5 ∷ 0 ∷ 2 ∷ 3 ∷ 10 ∷ 0 ∷ 2 ∷ 1 ∷ 4 ∷ 0 ∷ 2 ∷ 1 ∷ 6 ∷ 0 ∷ 2 ∷ 1 ∷ 5 ∷ 0 ∷ 2 ∷ 3
    ∷ 9 ∷ 0 ∷ 2 ∷ 1 ∷ 4 ∷ 0 ∷ 2 ∷ 1 ∷ 6 ∷ 0 ∷ 2 ∷ 1 ∷ 5 ∷ 0 ∷ 2 ∷ 3 ∷ 12 ∷ 0 ∷ 2 ∷ 1 ∷ 4 ∷ 0 ∷ 2 ∷ 1
    ∷ 6 ∷ 0 ∷ 2 ∷ 1 ∷ 5 ∷ 0 ∷ 2 ∷ 3 ∷ 8 ∷ 0 ∷ 2 ∷ 1 ∷ 4 ∷ 0 ∷ 2 ∷ 1 ∷ 6 ∷ 0 ∷ 2 ∷ 1 ∷ 5 ∷ 0 ∷ 2 ∷ 3
    ∷ 10 ∷ 0 ∷ 2 ∷ 1 ∷ 4 ∷ 0 ∷ 2 ∷ 1 ∷ 6 ∷ 0 ∷ 2 ∷ 1 ∷ 5 ∷ 0 ∷ 2 ∷ 3 ∷ 9 ∷ 0 ∷ 2 ∷ 1 ∷ 4 ∷ 0 ∷ 2 ∷ 1
    ∷ 6 ∷ 0 ∷ 2 ∷ 1 ∷ 5 ∷ 0 ∷ 2 ∷ 3 ∷ 14 ∷ 0 ∷ 2 ∷ 1 ∷ 4 ∷ 0 ∷ 2 ∷ 1 ∷ 6 ∷ 0 ∷ 2 ∷ 1 ∷ 5 ∷ 0 ∷ 2 ∷ 3
    ∷ 8 ∷ 0 ∷ 2 ∷ 1 ∷ 4 ∷ 0 ∷ 2 ∷ 1 ∷ 6 ∷ 0 ∷ 2 ∷ 1 ∷ 5 ∷ 0 ∷ 2 ∷ 3 ∷ 10 ∷ 0 ∷ 2 ∷ 1 ∷ 4 ∷ 0 ∷ 2 ∷ 1
    ∷ 6 ∷ 0 ∷ 2 ∷ 1 ∷ 5 ∷ 0 ∷ 2 ∷ 3 ∷ 9 ∷ 0 ∷ 2 ∷ 1 ∷ 4 ∷ 0 ∷ 2 ∷ 1 ∷ 6 ∷ 0 ∷ 2 ∷ 1 ∷ 5 ∷ 0 ∷ 2 ∷ 3
    ∷ 13 ∷ 0 ∷ 2 ∷ 1 ∷ 4 ∷ 0 ∷ 2 ∷ 1 ∷ 6 ∷ 0 ∷ 2 ∷ 1 ∷ 5 ∷ 0 ∷ 2 ∷ 3 ∷ 8 ∷ 0 ∷ 2 ∷ 1 ∷ 4 ∷ 0 ∷ 2 ∷ 1
    ∷ 6 ∷ 0 ∷ 2 ∷ 1 ∷ 5 ∷ 0 ∷ 2 ∷ 3 ∷ 10 ∷ 0 ∷ 2 ∷ 1 ∷ 4 ∷ 0 ∷ 2 ∷ 1 ∷ 6 ∷ 0 ∷ 2 ∷ 1 ∷ 5 ∷ 0 ∷ 2 ∷ 3
    ∷ 11 ∷ 0 ∷ 2 ∷ 1 ∷ 4 ∷ 0 ∷ 2 ∷ 1 ∷ 6 ∷ 0 ∷ 2 ∷ 1 ∷ 5 ∷ 0 ∷ 2 ∷ 7 ∷ []

-- `BITMAP_TO_BIN[ b & 0xff ]`
unfoldable pub byte_bin : ℕ → ℕ
byte_bin b = get_or bitmap_bins (bit_and b 0xff) 0

-- `b += 1; b &= -b;`
unfoldable pub last_set : ℕ → ℕ
last_set b = let t = (b + 1) % 2 ^ 32 in bit_and t ((2 ^ 32 - t) % 2 ^ 32)

-- From the third byte on.
unfoldable pub upper_bin : ℕ → ℕ
unfolding byte_bin last_set
upper_bin b =
    let t = byte_bin b in
    let low = last_set b in
    if ltb t 16
    then (if not (t == 7) then 32 + t else if bit_and low 0xffff == 0 then 47 else 39)
    else 48 + byte_bin (shift_signed b 8)

-- `bitmap_to_bin(b)`; `none` where its assertion fails, at the empty bitmap.
unfoldable pub bitmap_to_bin : ℕ → Option ℕ
unfolding byte_bin last_set upper_bin
bitmap_to_bin b =
    let t = byte_bin b in
    let low = last_set b in
    let second = shift_signed b 8 in
    if b == 0
    then none
    else if ltb t 16
    then (if not (t == 7)
        then some t
        else if low == 0
        then some (63 / 2)
        else if bit_and low 0xffff == 0
        then some 15
        else some 7)
    else if leb (byte_bin second) 15
    then some (16 + byte_bin second)
    else some (upper_bin (shift_signed second 8))

within : Bin → Option ℕ → Option Bin
within start none = none
within start (some v) = some (add64 start v)

-- `bitmap_to_bin(bin, bitmap)`: the same within the 32 base bins under `bin`.
unfoldable pub bitmap_bin_in : Bin → ℕ → Option Bin
unfolding bitmap_to_bin base_left within
bitmap_bin_in bin bitmap =
    if bitmap == bitmap_filled then some bin else within (base_left bin) (bitmap_to_bin bitmap)
