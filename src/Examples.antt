-- ===== src/Examples.antt =====
-- Sample rows, and the theorems applied to them.
pub mod Rows
pub mod Transitions
pub mod Worker
pub mod Scheduling
pub mod Lists
pub mod Executing
pub mod Finishing
pub mod Loading
pub mod Draining
pub mod Stopping
pub mod Recovering
