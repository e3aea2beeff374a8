-- ===== src/Scenarios.antt =====
-- Concrete runs, graphs and states on which the theorems are applied and the definitions are tested.
mod RunStates
mod RunStores
mod Reconciled
mod Services
mod Plans
mod Endings
mod Ledgers
mod Routes
mod Dispatches
mod Graphs
mod Evidences
