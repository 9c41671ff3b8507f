-- ===== src/Compact.antt =====
-- data/cache_compact.go: the removal of expired cache entries, and the schedule of its runs. A time is a
-- number of nanoseconds, 0 the zero time. The writes of the cache's file, which the source queues, are
-- I/O, and the lengths of intervals are kept in nanoseconds.
pub mod Invisible
use dnsplane.Base.{
  ℕ, ◌+◌, ◌-◌, ◌*◌, Bool, true, false, ◌&&◌, ◌||◌, not, List, [], ◌∷◌, is_empty, filter, length,
  leb, ltb, ◌==◌, if◌then◌else◌,
}
use dnsplane.Base.Int.{ℤ, pos, negsuc}
use dnsplane.Cache.{CacheRecord, second}
use dnsplane.LookupIndex.Index.{build_cache_record_index}
use dnsplane.LookupIndex.Answer.{ResolverData}

unfoldable pub cache_compact_interval : ℤ → ℕ
cache_compact_interval (negsuc n) = 1800 * second
cache_compact_interval (pos n) = (if ltb n 60 then 1800 else n) * second

-- The entries that stay: `!(cr.Expiry.IsZero() || !now.Before(cr.Expiry))`.
unfoldable pub is_kept : ℕ → CacheRecord → Bool
is_kept now c = not ((c.expiry == 0) || leb c.expiry now)

-- How many entries are removed, and the data.
unfoldable pub compact_expired_cache_records : ℕ → ResolverData → ℕ × ResolverData
compact_expired_cache_records now d =
    let kept = filter (is_kept now) d.cache_records in
    let removed = length d.cache_records - length kept in
    if is_empty d.cache_records || (removed == 0) then (0, d) else (
      removed,
      record d { cache_records = kept; cache_record_idx = build_cache_record_index kept },
    )

-- nextCacheCompactAt, lastCacheCompactAt and lastCacheCompactRemoved
pub record Schedule : Type 0 where
  pub next : ℕ
  pub last : ℕ
  pub last_removed : ℕ

unfoldable pub set_next_cache_compact_at : ℕ → Schedule → Schedule
set_next_cache_compact_at t s = record s { next = t }

unfoldable pub note_cache_compact_run : ℕ → ℕ → Schedule → Schedule
note_cache_compact_run now removed s = record s { last = now; last_removed = removed }

-- Whether the loop is woken, and the schedule; the two settings are those that turn the runs on.
unfoldable pub bump_cache_compact_schedule_after_manual :
    Bool → Bool → ℤ → ℕ → Schedule → Bool × Schedule
unfolding set_next_cache_compact_at
bump_cache_compact_schedule_after_manual cache_records enabled seconds now s =
    if not cache_records || not enabled
    then (false, s)
    else (true, set_next_cache_compact_at (now + cache_compact_interval seconds) s)
