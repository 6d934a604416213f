-- ===== src/Strings.antt =====
-- What the program uses of Go's strings and strconv.
mod Cutting
mod Numbers
mod Scanning
mod Paths
mod Components
unfoldable pub use Cutting.*
unfoldable pub use Numbers.*
unfoldable pub use Scanning.*
unfoldable pub use Paths.*
pub use Components.*
