-- ===== src/Examples.antt =====
-- The theorems at concrete inputs.
pub mod Access
pub mod Caches
pub mod Intake
pub mod Output
pub mod Rows
pub mod Config
pub mod Plugins
pub mod Gateway
pub mod Restart
pub mod History
pub mod Shutdown
