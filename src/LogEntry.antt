-- ===== src/LogEntry.antt =====
-- channels/change_log.go and db/change_cache.go: the entry of a change log. The fields that the
-- caches neither read nor write (VbNo, TimeSaved, Type, Value, PrevSequence) are left out; times are
-- nanoseconds since an origin.
use Prim.Native.Nat.{bit_and, bit_or}
use sync_gateway.Prelude.{ℕ, Bool, List, Option, not, ◌==◌, Str}

pub record ChannelRemoval : Type 0 where
  pub seq : ℕ
  pub rev_id : Str
  pub deleted : Bool

-- A nil pointer is `none`: the entry is in the channel.
abbrev pub ChannelMap : Type 0
ChannelMap = List (Str × Option ChannelRemoval)

pub record LogEntry : Type 0 where
  pub sequence : ℕ
  pub doc_id : Str
  pub rev_id : Str
  pub flags : ℕ
  pub time_received : ℕ
  pub channels : ChannelMap
  pub skipped : Bool

abbrev pub deleted_flag : ℕ
deleted_flag = 1

abbrev pub removed_flag : ℕ
removed_flag = 2

pub is_removed : LogEntry → Bool
is_removed e = not (bit_and e.flags removed_flag == 0)

pub is_deleted : LogEntry → Bool
is_deleted e = not (bit_and e.flags deleted_flag == 0)

unfoldable pub as_removal : LogEntry → LogEntry
as_removal e = record e { flags = bit_or e.flags removed_flag }
