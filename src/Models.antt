-- ===== src/Models.antt =====
-- The tables of app/models.py and the state vocabularies of app/collection/states.py.
mod Values
mod Dicts
mod States
mod Events
mod Connections
mod Alerts
pub mod Samples
unfoldable pub use Values.*
pub use Dicts.*
unfoldable pub use States.*
unfoldable pub use Events.*
unfoldable pub use Connections.*
unfoldable pub use Alerts.*
