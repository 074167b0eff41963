-- ===== src/Lib.antt =====
-- A model of the core of Sync Gateway: how a write changes a document's revision tree and channels,
-- the path that a change takes from the allocation of its sequence, through the buffer that restores
-- the order of sequences, into the per-channel caches from which changes feeds are answered, and who
-- may see the channels.
--
-- The parts and their files:
--   SequenceAllocator   db/sequence_allocator.go: sequenceAllocator, over a bucket that is a
--                       parameter; Cluster runs the allocators of several nodes on one bucket.
--   ChangeCache         db/change_cache.go: changeCache.processEntry with _addToCache and
--                       _addPendingLogs; ChangeCache.Skipped is SkippedSequenceList. It calls
--                       ChannelCache for each channel of an entry, and LateLog for late entries.
--                       Clean has CleanSkippedSequenceQueue, over a query and documents that are
--                       parameters, and Run runs arrivals and cleans.
--   ChannelCache        db/channel_cache.go: channelCache.addToCache, _appendChange, insertChange and
--                       _pruneCacheLength; Purge has pruneCacheAge and Remove, Reads has
--                       _getCachedChanges, Backfill has prependChanges, Changes has GetChanges.
--   LateLog             db/channel_cache.go: the log of late sequences; Listeners runs changes
--                       feeds on it.
--   ChangesFeed         db/changes.go: changesFeed for a channel (over the log that GetChanges gives)
--                       and the merge of the feeds in SimpleMultiChangesFeed, which compares
--                       sequences by SequenceId.
--   ChangeLog           channels/change_log.go: ChangeLog and its operations.
--   RevId               db/revision.go: ParseRevID, genOfRevID and compareRevIDs, over a scanner
--                       that is a parameter.
--   RevTree             db/revtree.go: lookups, leaves, addRevision, findAncestorFromSet and
--                       getHistory; Winner has winningRevision, which compares ids by RevId.
--                       Encoding has ParseRevisions, encodeRevisions and
--                       trimEncodedRevisionsToAncestor, and Pruning has pruneRevisions.
--   Document            db/document.go: the flags, updateChannels, IsChannelRemoval and
--                       updateAccess, on RevTree and TimedSet.
--   Crud                db/crud.go: IsIllegalConflict, the callbacks of Put and PutExistingRev on
--                       RevTree, and how updateAndReturnDoc picks the current revision; Sequences has
--                       the sequence that it assigns, over an allocator that is a parameter, and
--                       Proposals has RevDiff and CheckProposedRev.
--   Auth                auth/role.go, auth/user.go and auth/auth.go: the channels that principals
--                       may see, rebuildChannels and rebuildRoles, on TimedSet; Saving has
--                       casUpdatePrincipal, over a store that is a parameter.
--   ChangeListener      db/change_listener.go: the counts of notified keys, the waiters, and
--                       ProcessFeedEvent.
--   Lru                 base/lru_cache.go: LRUCache, generic in its keys.
--   RevisionCache       db/revision_cache.go: RevisionCache, on the map and the list of Lru, with
--                       the values as a heap; Calls has the calls of a client, and Sharded is
--                       ShardedRevisionCache. The loaders, the deep copy of a body and the hash
--                       are parameters.
--   TimedSet            channels/timed_set.go: TimedSet and VbSequence.
--   LogEntry            channels/change_log.go and db/change_index.go: LogEntry and its flags.
--   SequenceId          db/sequence_id.go: integer sequences, their text form and their order.
--   Prelude             Boolean tests, lists, text and integers that the parts share.
--   Tests               concrete runs.
--
-- State is passed explicitly, and a method that holds its lock is one step; the calls of an LRUCache
-- come one after another, since its Put takes no lock. The log of a channel
-- cache stands newest first, the order in which the code walks its slice. The heap of pending
-- entries is a list in rising sequence. Maps are association lists. Times are natural numbers, and
-- the clock is an argument that is read once in a step. Sequences are natural numbers below 2 ^ 64
-- that do not wrap; listener counts have their wrap-around written out.
--
-- Fuel: `add_pending_loop` gets the distance from the next sequence to the largest pending one
-- plus 1, since each round raises the next sequence; `prune_age_loop` gets the length of the log,
-- since each round drops an entry. `find_ancestor_loop`, `get_history_loop`, `walk_depths` and
-- `delete_branch` get the number of revisions and 1, more than a chain of distinct ancestors has.
-- `purge_over` gets the size of the map and 2: the map has one entry more by then, each round drops
-- one, and the last round only tests. `merge_loop` gets the number of entries of the feeds and 1,
-- since each round clears at least one. `next_above` gets the document's sequence and 1, since the
-- sequences rise. `query_batches` gets the number of old sequences, since each round takes at least
-- one. `cas_update_principal` has the 20 attempts of the code's own constant.
--
-- Not modelled: the outer loop of a changes request (waiting, backfill of channels that are
-- granted, late feeds, bodies and conflicting revisions of the entries), clock sequences and the
-- index of vector clocks, queries, the storage, the REST interface, replication, passwords, sessions
-- and tokens, imports and attachments, the sync function and the bodies of a write, the JSON form of
-- revision trees, logging, and the background tasks. Copies of a body and of attachments are taken
-- for their contents; whether a caller changes what it shares with the revision cache is not
-- modelled.
pub mod Prelude
pub mod SequenceId
pub mod LogEntry
pub mod LateLog
pub mod ChangeLog
pub mod ChannelCache
pub mod ChangeCache
pub mod SequenceAllocator
pub mod Lru
pub mod RevisionCache
pub mod ChangesFeed
pub mod RevId
pub mod RevTree
pub mod Document
pub mod Crud
pub mod Auth
pub mod ChangeListener
pub mod TimedSet
pub mod Tests
