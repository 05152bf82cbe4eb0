-- ===== src/Base.antt =====
-- The names that the modules of the development share: the libraries', passed on, the Boolean
-- tests on numbers, lists with native indices, and well-founded recursion.
mod Tests
mod Lists
mod Order
pub mod Int
pub use Tests.*
pub use Lists.*
unfoldable pub use Order.*
pub use Prim.Native.Nat.{ℕ, zero, suc, ◌+◌, ◌-◌, ◌*◌, ◌/◌, ◌%◌, ◌^◌, ◌≤◌, ◌<◌}
pub use mathlib.Core.Path.{◌≡◌, refl, sym, ap, ◌∙◌}
pub use mathlib.Core.Logic.{◌≢◌, ◌↔◌, ◌⊎◌, inl, inr}
pub use mathlib.Core.Bool.{Bool, true, false, not, ◌&&◌, ◌||◌}
pub use mathlib.Core.Option.{Option, none, some}
pub use mathlib.Core.List.{List, [], ◌∷◌, ◌++◌, map}
pub use native.Mathlib.Omega.{arith}

-- Steps between equivalences.
pub via : {P : Type 0} {x y : Bool} → x ≡ y → (y ≡ true) ↔ P → (x ≡ true) ↔ P
via e i = (λ h. i.0 (sym e ∙ h), λ q. e ∙ i.1 q)

pub and_then_iff : {P Q R : Type 0} → P ↔ Q → R ↔ Q → P ↔ R
and_then_iff f g = (λ x. g.1 (f.0 x), λ x. f.1 (g.0 x))

pub flip_iff : {P Q : Type 0} → P ↔ Q → Q ↔ P
flip_iff e = (e.1, e.0)
