-- ===== src/Prelude/Dict.antt =====
-- Python's `dict` and `OrderedDict`: an association list in insertion order, the oldest key first.
mod Defs
mod Laws
mod Evict
mod Recency
mod Split
mod Values
pub use Defs.{Dict, contains, Distinct, values}
unfoldable pub use Defs.{get, set, remove, move_to_end}
pub use Laws.*
unfoldable pub use Evict.{evict}
pub use Evict.{length-evict, evict_of_length-le, Distinct-evict, get-evict, get-evict_last}
pub use Recency.{behind, behind-remove, behind-touch, behind-evict, behind-touch_self}
pub use Split.{Distinct-middle, remove-middle, get-middle}
pub use Values.*
