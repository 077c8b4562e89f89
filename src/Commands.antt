-- ===== src/Commands.antt =====
-- The request handlers of src/queuer/daemon.py.
pub mod Specs
pub mod Prepare
pub mod Plan
pub mod Add
pub mod Atomic
pub mod Cancel
pub mod Simple
pub mod Reads
pub mod Lists
pub mod Target
pub mod EditPlan
pub mod EditDeps
pub mod Edit
pub mod Edited
