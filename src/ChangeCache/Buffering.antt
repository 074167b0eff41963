-- ===== src/ChangeCache/Buffering.antt =====
-- What db/change_cache.go's buffering keeps true of sequences: each is waited for, pending, handed to
-- the channel caches or in the list of skipped sequences.
pub mod Fields
pub mod Queue
pub mod Loop
pub mod Accounted
