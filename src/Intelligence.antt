-- ===== src/Intelligence.antt =====
-- app/collection/intelligence_analysis.py: what a classifier's result may name, and its promotion to
-- a finding and a case. `_safe_result`, the reading of the catalogue and of the context are not here.
mod Rows
mod Targets
mod Details
mod Promote
unfoldable pub use Rows.*
unfoldable pub use Targets.*
unfoldable pub use Details.*
unfoldable pub use Promote.*
pub mod Approved
pub mod Kept
pub mod Reuse
mod Tests
