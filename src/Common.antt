-- ===== src/Common.antt =====
-- The names that all modules share: the libraries', passed on, and those of the children.
-- The children model the parts of Python that the chain's code rests on: exceptions as
-- results, `str` as a list of code points, `dict` in insertion order, `sorted`, and JSON.
mod Prelude
mod Lists
mod Equality
mod Outcome
mod Mapping
mod Strings
mod Sorting
mod Ordered
mod Int
mod Encoding
mod Hex
mod Documents
unfoldable pub use Prelude.*
unfoldable pub use Lists.*
unfoldable pub use Equality.*
unfoldable pub use Outcome.*
unfoldable pub use Mapping.*
unfoldable pub use Strings.*
unfoldable pub use Ordered.*
unfoldable pub use Sorting.*
unfoldable pub use Int.*
unfoldable pub use Encoding.*
unfoldable pub use Hex.*
unfoldable pub use Documents.*
