-- ===== src/BinSet.antt =====
-- What the hash tree and the channels rely on of a `binmap_t` (binmap.h): a set of base bins that is
-- written and asked by whole bins. `mem` is whether a base bin is in the set, and the law holds of the
-- sets that `IsSound` allows; Binmap/AsSet.antt fills the interface with the binmap itself.
use libswift.Base.{ℕ, ◌+◌, ◌*◌, ◌^◌, ◌≡◌, ◌↔◌, Bool, true, false, ◌&&◌, leb, ltb}
use libswift.Bin.{Bin}
use libswift.Bin.Layout.{node, InTree}

-- Whether base bin `i` lies under the bin at layer `l` and offset `o`.
abbrev pub covers : ℕ → ℕ → ℕ → Bool
covers l o i = leb (o * 2 ^ l) i && ltb i (o * 2 ^ l + 2 ^ l)

pub record BinSet : Type 1 where
  pub Set : Type 0
  pub empty : Set
  pub set : Set → Bin → Set
  pub is_empty : Set → Bin → Bool
  pub is_filled : Set → Bin → Bool
  pub mem : Set → ℕ → Bool
  pub IsSound : Set → Type 0
  pub is_empty_iff :
      (s : Set)
      → IsSound s
      → (l o : ℕ) → InTree l o
      → (is_empty s (node l o) ≡ true) ↔ ((i : ℕ) → covers l o i ≡ true → mem s i ≡ false)
