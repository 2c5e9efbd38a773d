-- ===== src/Base.antt =====
-- The names that every module shares: the libraries', passed on, and those of the children.
mod Tests
mod Lists
mod Strings
mod Errors
pub use Tests.*
pub use Lists.{length, All}
unfoldable pub use Lists.{find, filter, count, any, all, update}
pub use Lists.{length-append, length-update, length-filter-le, count-le-length, count-append}
pub use Lists.{length-filter, count-update_leave, count-update_join, find-none_of_stronger}
pub use Lists.{
  find-update_stable, count_of_any-false, find-update_same, find-update-none, count-update_none,
  count-update-le, count-update-eq,
}
pub use Lists.{All-update, All-find, All-append}
pub use Lists.{find_sound, find_of_count, count_of_find}
pub use Lists.{
  any_of_count, any-false_of_weaker, count_of_stronger-le, any-update, count-update_drop,
  any_of_find, All-update_only, All-update_each, find_unique, count_of_find-none, find_of_any,
}
pub use Strings.{Text, codes, text_eq_refl, text_eq_sound, text_eq_iff}
unfoldable pub use Strings.{text_eq, split, strip_prefix, is_prefix, contains, lacks}
pub use Strings.{strip_prefix-append, strip_prefix_sound, split-lacks, split-append}
pub use Errors.*
pub use Prim.Native.Nat.{ℕ, zero, suc, ◌+◌, ◌-◌, ◌*◌, ◌/◌, ◌%◌, ◌^◌, ◌≤◌, ◌<◌}
pub use mathlib.Core.Path.{◌≡◌, refl, sym, ap, subst, ◌∙◌}
pub use mathlib.Core.Logic.{◌≢◌, ◌↔◌, ◌⊎◌, inl, inr}
pub use mathlib.Core.Bool.{Bool, true, false, not, ◌&&◌, ◌||◌}
pub use mathlib.Core.Option.{Option, none, some}
pub use mathlib.Core.List.{List, [], ◌∷◌, ◌++◌, map}
pub use native.Mathlib.Omega.{arith}
