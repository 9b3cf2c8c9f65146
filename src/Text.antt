-- ===== src/Text.antt =====
-- The `str` methods of the Rust standard library that the source calls, over code points.
-- Code points compare as their UTF-8 bytes do, so `text_leb` is `<=` of `String`.
mod Chars
mod Equality
mod Order
mod Lines
mod Search
mod Sorted
mod Assoc
mod Sort
unfoldable pub use Chars.*
unfoldable pub use Equality.*
unfoldable pub use Order.*
unfoldable pub use Lines.*
unfoldable pub use Sorted.*
unfoldable pub use Search.*
unfoldable pub use Assoc.*
unfoldable pub use Sort.*
