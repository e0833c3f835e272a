-- ===== src/Tests.antt =====
-- The theorems at concrete inputs.
mod Data
mod Splits
mod GameCard
mod Wire
mod Memory
mod Queues
mod Team
