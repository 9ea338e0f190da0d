-- ===== src/Base.antt =====
-- What the other modules share: names of the libraries, passed on, and the lists, texts and results
-- that the TypeScript sources use of the language's own library.
mod Tests
mod Results
mod Lists
mod Sets
pub mod Dict
pub mod Distinct
pub mod Sort
pub mod Text
pub use Tests.*
pub use Results.*
pub use Lists.*
pub use Sets.*
unfoldable pub use Sets.{unique}
pub use Prim.Native.Nat.{ℕ, zero, suc, ◌+◌, ◌-◌, ◌*◌, ◌/◌, ◌≤◌, ◌<◌, min}
pub use Prim.Native.String.{String}
pub use mathlib.Core.Path.{◌≡◌, refl, sym, ap, ◌∙◌}
pub use mathlib.Core.Logic.{◌≢◌, ◌↔◌, ◌⊎◌, inl, inr}
pub use mathlib.Core.Bool.{Bool, true, false, not, ◌&&◌, ◌||◌}
pub use mathlib.Core.Option.{Option, none, some}
pub use mathlib.Core.List.{List, [], ◌∷◌, ◌++◌, map}
pub use native.Mathlib.Omega.{arith}
pub use text.Mathlib.Text.{◌==◌}
pub use text.Mathlib.TextEquality.{eq_iff}
