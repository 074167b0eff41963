-- ===== src/ChannelCache/Reads.antt =====
-- `getCachedChanges` and `GetChanges` of db/channel_cache.go. Results stand oldest first, as they are
-- returned.
use mathlib.Core.List.{reverse}
use sync_gateway.Prelude.{ℕ, ◌+◌, List, [], ◌∷◌, ◌&&◌, ltb, length, take, if◌then◌else◌}
use sync_gateway.LogEntry.{LogEntry}
use sync_gateway.ChannelCache.{ChannelCache}

-- The walk back over entries above a sequence: those that are, and the rest.
unfoldable pub newer : ℕ → List LogEntry → List LogEntry
newer since [] = []
newer since (e ∷ es) = if ltb since e.sequence then e ∷ newer since es else []

unfoldable pub older : ℕ → List LogEntry → List LogEntry
older since [] = []
older since (e ∷ es) = if ltb since e.sequence then older since es else e ∷ es

unfoldable pub valid_after : ℕ → List LogEntry → ℕ
valid_after valid_from [] = valid_from
valid_after valid_from (e ∷ es) = e.sequence + 1

unfoldable pub limit_to : ℕ → List LogEntry → List LogEntry
limit_to limit l = if ltb 0 limit && ltb limit (length l) then take limit l else l

-- `_getCachedChanges`: the sequence that the result is valid from, and the result.
unfoldable pub get_cached_changes : ℕ → ℕ → ChannelCache → ℕ × List LogEntry
unfolding newer older valid_after limit_to
get_cached_changes since limit c =
    (valid_after c.valid_from (older since c.logs), limit_to limit (reverse (newer since c.logs)))
