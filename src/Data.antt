-- ===== src/Data.antt =====
-- data/data.go: the store that the resolver, the commands and the peers share. The files it writes are
-- I/O: whether the records are saved is an argument, and so is the source's being read-only. The
-- callback of the cluster is a count of its calls. A copy of a slice is the slice, as values are.
pub mod Coherent
use dnsplane.Base.{
  ℕ, suc, ◌+◌, Bool, true, false, ◌&&◌, not, List, [], ◌∷◌, ◌++◌, Option, none, some, map,
  if◌then◌else◌,
}
use dnsplane.Text.{Text}
use dnsplane.Records.Types.{DnsRecord}
use dnsplane.Records.Normalize.{canonicalize_record_name}
use dnsplane.Cache.{CacheRecord}
use dnsplane.Servers.Types.{DnsServer}
use dnsplane.LookupIndex.Index.{build_dns_record_index, build_cache_record_index}
use dnsplane.LookupIndex.Answer.{ResolverData}
use dnsplane.Compact.{compact_expired_cache_records}

pub record Stats : Type 0 where
  pub total_queries : ℕ
  pub total_cache_hits : ℕ
  pub total_blocks : ℕ
  pub total_queries_forwarded : ℕ
  pub total_queries_answered : ℕ

-- AdblockSource
pub record AdblockSource : Type 0 where
  pub source : Text
  pub count : ℕ

-- DNSResolverData, with the settings that its operations and lookups read.
pub record DataStore : Type 0 where
  pub resolver_data : ResolverData
  pub cluster_reject_local_writes : Bool
  pub servers : List DnsServer
  pub adblock_sources : List AdblockSource
  pub stats : Stats
  pub notified : ℕ

pub data StoreError : Type 0 where
  local_writes_disabled source_read_only : StoreError

unfoldable pub set_records : List DnsRecord → DataStore → DataStore
set_records rs d = record d {
  resolver_data = record d.resolver_data {
    dns_records = rs;
    dns_record_idx = build_dns_record_index rs;
  };
}

-- storeRecords; `saved` is whether the write of the file succeeds, and `skip` clusterSkipNotify.
unfoldable pub store_records : Bool → Bool → Bool → List DnsRecord → DataStore → DataStore
unfolding set_records
store_records saved skip persist rs d =
    let stored = set_records rs d in
    if persist && saved && not skip then record stored { notified = suc d.notified } else stored

unfoldable pub write_error : Bool → DataStore → Option StoreError
write_error read_only d =
    if d.cluster_reject_local_writes
    then some local_writes_disabled
    else if read_only
    then some source_read_only
    else none

unfoldable pub store_unless :
    Option StoreError → Bool → Bool → List DnsRecord → DataStore → Option StoreError × DataStore
store_unless (some e) saved persist rs d = (some e, d)
store_unless none saved persist rs d = (none, store_records saved false persist rs d)

unfoldable pub update_records :
    Bool → Bool → List DnsRecord → DataStore → Option StoreError × DataStore
unfolding write_error store_unless
update_records read_only saved rs d = store_unless (write_error read_only d) saved true rs d

unfoldable pub update_records_in_memory :
    Bool → List DnsRecord → DataStore → Option StoreError × DataStore
unfolding write_error store_unless
update_records_in_memory read_only rs d = store_unless (write_error read_only d) true false rs d

unfoldable pub canonical_records : List DnsRecord → List DnsRecord
canonical_records rs =
    map {A = DnsRecord} (λ r. record r { name = canonicalize_record_name r.name }) rs

unfoldable pub apply_cluster_records :
    Bool → Bool → List DnsRecord → DataStore → Option StoreError × DataStore
apply_cluster_records read_only saved rs d =
    if read_only
    then (some source_read_only, d)
    else (none, store_records saved true true (canonical_records rs) d)

-- storeCacheRecords
unfoldable pub update_cache_records : List CacheRecord → DataStore → DataStore
update_cache_records cs d = record d {
  resolver_data = record d.resolver_data {
    cache_records = cs;
    cache_record_idx = build_cache_record_index cs;
  };
}

unfoldable pub update_servers : List DnsServer → DataStore → DataStore
update_servers rows d = record d { servers = rows }

-- UpdateSettings and UpdateSettingsInMemory, for the settings that are kept here
unfoldable pub update_settings : Bool → Bool → Bool → Bool → DataStore → DataStore
update_settings reject local_enabled cache_enabled stale d = record d {
  cluster_reject_local_writes = reject;
  resolver_data = record d.resolver_data {
    local_records_enabled = local_enabled;
    cache_enabled = cache_enabled;
    stale_while_revalidate = stale;
  };
}

unfoldable pub update_stats : Stats → DataStore → DataStore
update_stats s d = record d { stats = s }

unfoldable pub increment_total_queries : DataStore → DataStore
increment_total_queries d = record d {
  stats = record d.stats { total_queries = suc d.stats.total_queries };
}

unfoldable pub increment_cache_hits : DataStore → DataStore
increment_cache_hits d = record d {
  stats = record d.stats { total_cache_hits = suc d.stats.total_cache_hits };
}

unfoldable pub increment_total_blocks : DataStore → DataStore
increment_total_blocks d = record d {
  stats = record d.stats { total_blocks = suc d.stats.total_blocks };
}

unfoldable pub increment_queries_forwarded : DataStore → DataStore
increment_queries_forwarded d = record d {
  stats = record d.stats { total_queries_forwarded = suc d.stats.total_queries_forwarded };
}

unfoldable pub increment_queries_answered : DataStore → DataStore
increment_queries_answered d = record d {
  stats = record d.stats { total_queries_answered = suc d.stats.total_queries_answered };
}

unfoldable pub record_adblock_source : Text → ℕ → DataStore → DataStore
record_adblock_source source count d = record d {
  adblock_sources = d.adblock_sources ++ record { source = source; count = count } ∷ [];
}

unfoldable pub clear_adblock_sources : DataStore → DataStore
clear_adblock_sources d = record d { adblock_sources = [] }

-- CompactExpiredCacheRecords on the store
unfoldable pub compact : ℕ → DataStore → DataStore
compact now d = record d { resolver_data = (compact_expired_cache_records now d.resolver_data).1 }
