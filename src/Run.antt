-- ===== src/Run.antt =====
-- src/hca/run.py: the run specification, the states of a run and the durable run store.
pub mod State
pub mod Machine
pub mod Spec
pub mod Store
