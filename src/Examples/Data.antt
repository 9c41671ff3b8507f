-- ===== src/Examples/Data.antt =====
-- Concrete stores: data/data.go and data/cache_compact.go.
use dnsplane.Base.{ℕ, ◌≡◌, refl, arith, true, false, List, [], ◌∷◌}
use dnsplane.Text.{
  codes, to_lower, lower, trim_space, trim_left, trim_right, keep_head, is_space, trim_dots, is_dot,
}
use dnsplane.Library.{sample_rrs}
use dnsplane.Records.Types.{DnsRecord, no_record}
use dnsplane.Records.Normalize.{normalize_record_name_key, canonicalize_record_name}
use dnsplane.Cache.{CacheRecord}
use dnsplane.LookupIndex.Index.{build_cache_record_index, build_dns_record_index, build_from}
use dnsplane.LookupIndex.Answer.{ResolverData, try_fast_local_or_cache}
use dnsplane.Compact.{compact_expired_cache_records}
use dnsplane.Compact.Invisible.{IsWarm, try_fast-compact_expired_cache_records}
use dnsplane.Data.{DataStore}
use dnsplane.Data.Coherent.{
  IsCoherent, Change, records_updated, cluster_applied, cache_updated, settings_updated, compacted,
  run, run-IsCoherent,
}

abbrev address_record : DnsRecord
address_record = record no_record {
  name = codes "example.com";
  type = codes "A";
  value = codes "10.0.0.1";
}

abbrev entry_until : ℕ → CacheRecord
entry_until expiry = record {
  dns_record = address_record;
  expiry = expiry;
  timestamp = 1;
  last_query = 1;
}

abbrev entries : List CacheRecord
entries = entry_until 40 ∷ entry_until 90 ∷ []

abbrev resolver_data : ResolverData
resolver_data = record {
  local_records_enabled = true;
  cache_enabled = true;
  stale_while_revalidate = false;
  dns_records = [];
  cache_records = entries;
  dns_record_idx = [];
  cache_record_idx = build_cache_record_index entries;
}

resolver_data-IsWarm : IsWarm resolver_data
unfolding normalize_record_name_key to_lower lower trim_space trim_left trim_right keep_head
    is_space canonicalize_record_name trim_dots is_dot
resolver_data-IsWarm = record { built = refl; plain = refl }

try_fast-compact_expired_cache_records_example :
    try_fast_local_or_cache sample_rrs
      (compact_expired_cache_records 50 resolver_data).1
      (codes "example.com")
      (codes "A")
      false
      60
    ≡ try_fast_local_or_cache sample_rrs resolver_data (codes "example.com") (codes "A") false 60
unfolding normalize_record_name_key to_lower lower trim_space trim_left trim_right keep_head
    is_space canonicalize_record_name trim_dots is_dot
try_fast-compact_expired_cache_records_example =
    try_fast-compact_expired_cache_records sample_rrs (codes "example.com") (codes "A") false 50 60
      resolver_data (omega arith) refl resolver_data-IsWarm refl

abbrev pub store : DataStore
store = record {
  resolver_data = record resolver_data { cache_records = []; cache_record_idx = [] };
  cluster_reject_local_writes = false;
  servers = [];
  adblock_sources = [];
  stats = record {
    total_queries = 0;
    total_cache_hits = 0;
    total_blocks = 0;
    total_queries_forwarded = 0;
    total_queries_answered = 0;
  };
  notified = 0;
}

abbrev changes : List Change
changes =
    records_updated false true (address_record ∷ [])
    ∷ cache_updated entries
    ∷ settings_updated true true true true
    ∷ cluster_applied false true (address_record ∷ address_record ∷ [])
    ∷ compacted 50
    ∷ []

run-IsCoherent_example : IsCoherent (run changes store)
unfolding build_dns_record_index build_from build_cache_record_index
run-IsCoherent_example =
    run-IsCoherent changes store (record { records_built = refl; cache_built = refl })
