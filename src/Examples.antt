-- ===== src/Examples.antt =====
-- The theorems at concrete inputs, and tests of the definitions.
mod LeaseStore
mod Bundle
mod Box
mod Runtime
mod Discovery
mod SutManager
mod Windows
mod Daemon
mod Cleanup
mod Wires
mod Client
mod Ending
mod Runner
mod Starting
mod StartLock
mod Entry
