-- ===== src/Go.antt =====
-- Go as the program uses it: results, errors and panics, calls that have effects, texts, networks.
pub mod Text
pub mod Effect
pub mod Net
mod Results
pub mod Accepts
unfoldable pub use Results.*
