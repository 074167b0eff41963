-- ===== src/Tests.antt =====
-- Concrete runs of the model: the examples that the theorems are applied to.
mod Channel
mod Buffer
mod Sequences
mod Log
mod Tree
mod Caches
mod Feeds
mod Documents
mod Access
