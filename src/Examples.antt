-- ===== src/Examples.antt =====
-- Concrete platforms and storages, and the theorems at concrete inputs.
mod Demo
mod Store
mod Kept
mod Documents
mod Directory
mod Guards
mod Lifecycles
mod Registrations
mod Deletions
mod Removals
mod Starts
mod Revocations
mod Streams
mod Issues
mod Stored
mod Endpoints
mod Values
mod Access
mod Exchanges
mod Answers
