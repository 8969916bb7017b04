-- ===== src/Tests.antt =====
-- Runs of the definitions on small inputs, and the theorems at concrete inputs.
mod Connection
mod EventLog
mod EventSocket
mod Store
mod Presence
mod Address
mod Schedule
mod Routines
mod Allowances
mod Deadlines
