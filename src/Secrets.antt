-- ===== src/Secrets.antt =====
-- app/collection/secrets.py: what of a payload is secret, and where secrets are kept.
mod Urls
mod Classify
mod References
mod Resolver
pub mod Clean
pub mod Faithful
pub mod Memory
pub mod Plain
mod Tests
unfoldable pub use Urls.*
unfoldable pub use Classify.*
unfoldable pub use References.*
unfoldable pub use Resolver.*
