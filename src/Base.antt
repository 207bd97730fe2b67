-- ===== src/Base.antt =====
-- Names that the other modules share: the libraries', passed on, and those of the children below.
pub mod Core
pub mod Equality
pub mod Lists
pub mod Dict
pub mod Order
pub mod Sort
pub mod Slices
pub mod Text
pub mod Int
pub mod Pigeonhole
pub mod Decimal
pub mod Fallible
unfoldable pub use Core.*
unfoldable pub use Equality.*
unfoldable pub use Lists.*
unfoldable pub use Slices.*
