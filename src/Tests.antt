-- ===== src/Tests.antt =====
-- Concrete runs: the data that they share, and each theorem applied to it.
mod Reading
mod Commanding
mod Executing
mod Pooling
mod Migrating
mod Fixtures
mod Storing
mod Indexed
mod Passes
mod Following
mod Fees
mod Requesting
