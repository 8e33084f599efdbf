-- ===== src/Tests.antt =====
-- Concrete runs of the model: every theorem with conditions is applied where they hold.
mod Records
mod Recoveries
mod Caches
mod Wire
mod Tenants
mod Commits
mod Stores
mod Payloads
mod Resp
mod Shards
