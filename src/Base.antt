-- ===== src/Base.antt =====
-- The names that every part shares: the library's, passed on, and those of the children: tests on
-- numbers, lists, texts and maps as JavaScript has them.
pub mod Tests
pub mod Lists
pub mod Texts
pub mod Maps
pub mod Sets
pub mod Decimal
pub mod Every
pub use Tests.*
pub use Lists.*
pub use Prim.Native.Nat.{ℕ, zero, suc, ◌+◌, ◌-◌, ◌*◌, ◌/◌, ◌%◌, ◌≤◌, ◌<◌, min, max}
pub use mathlib.Core.Path.{◌≡◌, refl, sym, ap, subst, ◌∙◌}
pub use mathlib.Core.Logic.{◌≢◌, ◌↔◌, ◌⊎◌, inl, inr}
pub use mathlib.Core.Bool.{Bool, true, false, not, ◌&&◌, ◌||◌}
pub use mathlib.Core.Option.{Option, none, some}
pub use mathlib.Core.List.{List, [], ◌∷◌, ◌++◌, map, append-nil, append_assoc}
pub use native.Mathlib.Omega.{arith}
pub use Texts.{Text, text, eq_text_iff, eq_text_refl}
unfoldable pub use Texts.{
  eq_text, mem_text, starts_with, ends_with, includes, is_space, trim_start, trim_end, trim,
  is_blank, lower, decimal, join,
}
pub use Maps.{Map}
