-- ===== src/Data/Coherent.antt =====
-- data/data.go: the two maps of the store, and what other nodes are told.
use dnsplane.Base.{
  ℕ, ◌≡◌, refl, Bool, true, false, ◌&&◌, ◌||◌, not, List, [], ◌∷◌, Option, none, some, filter,
  is_empty, length, ◌-◌, ◌==◌, inl, inr, Bool-cases,
}
use dnsplane.Text.{Text}
use dnsplane.Records.Types.{DnsRecord}
use dnsplane.Cache.{CacheRecord}
use dnsplane.Servers.Types.{DnsServer}
use dnsplane.LookupIndex.Index.{build_dns_record_index, build_cache_record_index}
use dnsplane.Compact.{is_kept, compact_expired_cache_records}
use dnsplane.Data.{
  Stats, DataStore, StoreError, set_records, store_records, write_error, store_unless,
  update_records, update_records_in_memory, apply_cluster_records, canonical_records,
  update_cache_records, update_servers, update_settings, update_stats, increment_total_queries,
  increment_cache_hits, increment_total_blocks, increment_queries_forwarded,
  increment_queries_answered, record_adblock_source, clear_adblock_sources, compact,
}

-- Both maps are those that the builders make of the lists.
pub record IsCoherent (d : DataStore) : Type 0 where
  pub records_built :
      d.resolver_data.dns_record_idx ≡ build_dns_record_index d.resolver_data.dns_records
  pub cache_built :
      d.resolver_data.cache_record_idx ≡ build_cache_record_index d.resolver_data.cache_records

-- The operations that change the store.
pub data Change : Type 0 where
  records_updated : Bool → Bool → List DnsRecord → Change
  records_updated_in_memory : Bool → List DnsRecord → Change
  cluster_applied : Bool → Bool → List DnsRecord → Change
  cache_updated : List CacheRecord → Change
  servers_updated : List DnsServer → Change
  settings_updated : Bool → Bool → Bool → Bool → Change
  stats_updated : Stats → Change
  query_counted hit_counted block_counted forward_counted answer_counted : Change
  source_recorded : Text → ℕ → Change
  sources_cleared : Change
  compacted : ℕ → Change

unfoldable pub changed : Change → DataStore → DataStore
changed (records_updated read_only saved rs) d = (update_records read_only saved rs d).1
changed (records_updated_in_memory read_only rs) d = (update_records_in_memory read_only rs d).1
changed (cluster_applied read_only saved rs) d = (apply_cluster_records read_only saved rs d).1
changed (cache_updated cs) d = update_cache_records cs d
changed (servers_updated rows) d = update_servers rows d
changed (settings_updated r l c s) d = update_settings r l c s d
changed (stats_updated s) d = update_stats s d
changed query_counted d = increment_total_queries d
changed hit_counted d = increment_cache_hits d
changed block_counted d = increment_total_blocks d
changed forward_counted d = increment_queries_forwarded d
changed answer_counted d = increment_queries_answered d
changed (source_recorded s n) d = record_adblock_source s n d
changed sources_cleared d = clear_adblock_sources d
changed (compacted now) d = compact now d

unfoldable pub run : List Change → DataStore → DataStore
run [] d = d
run (c ∷ cs) d = run cs (changed c d)

store_records-IsCoherent :
    (saved skip persist : Bool) (rs : List DnsRecord) (d : DataStore)
    → IsCoherent d
    → IsCoherent (store_records saved skip persist rs d)
unfolding store_records set_records
store_records-IsCoherent saved skip persist rs d h =
    elim (Bool-cases (persist && saved && not skip)) [
      | inl e ↦ rw e (record { records_built = refl; cache_built = h.cache_built })
      | inr n ↦ rw n (record { records_built = refl; cache_built = h.cache_built })
    ]

store_unless-IsCoherent :
    (e : Option StoreError) (saved persist : Bool) (rs : List DnsRecord) (d : DataStore)
    → IsCoherent d
    → IsCoherent (store_unless e saved persist rs d).1
unfolding store_unless
store_unless-IsCoherent (some e) saved persist rs d h = h
store_unless-IsCoherent none saved persist rs d h =
    store_records-IsCoherent saved false persist rs d h

compact-IsCoherent : (now : ℕ) (d : DataStore) → IsCoherent d → IsCoherent (compact now d)
unfolding compact compact_expired_cache_records
compact-IsCoherent now d h =
    let cs = d.resolver_data.cache_records in
    elim (Bool-cases (is_empty cs || (length cs - length (filter (is_kept now) cs) == 0))) [
      | inl e ↦ rw e h
      | inr n ↦ rw n (record { records_built = h.records_built; cache_built = refl })
    ]

apply_cluster_records-IsCoherent :
    (read_only saved : Bool) (rs : List DnsRecord) (d : DataStore)
    → IsCoherent d
    → IsCoherent (apply_cluster_records read_only saved rs d).1
unfolding apply_cluster_records
apply_cluster_records-IsCoherent true saved rs d h = h
apply_cluster_records-IsCoherent false saved rs d h =
    store_records-IsCoherent saved true true (canonical_records rs) d h

-- A change of another part of the store.
kept-IsCoherent :
    (d e : DataStore)
    → e.resolver_data.dns_records ≡ d.resolver_data.dns_records
    → e.resolver_data.dns_record_idx ≡ d.resolver_data.dns_record_idx
    → e.resolver_data.cache_records ≡ d.resolver_data.cache_records
    → e.resolver_data.cache_record_idx ≡ d.resolver_data.cache_record_idx
    → IsCoherent d
    → IsCoherent e
kept-IsCoherent d e rs ri cs ci h = record {
  records_built = rw (rs, ri) h.records_built;
  cache_built = rw (cs, ci) h.cache_built;
}

changed-IsCoherent : (c : Change) (d : DataStore) → IsCoherent d → IsCoherent (changed c d)
unfolding changed update_records update_records_in_memory update_cache_records update_servers
    update_settings update_stats increment_total_queries increment_cache_hits increment_total_blocks
    increment_queries_forwarded increment_queries_answered record_adblock_source
    clear_adblock_sources
changed-IsCoherent (records_updated read_only saved rs) d h =
    store_unless-IsCoherent (write_error read_only d) saved true rs d h
changed-IsCoherent (records_updated_in_memory read_only rs) d h =
    store_unless-IsCoherent (write_error read_only d) true false rs d h
changed-IsCoherent (cluster_applied read_only saved rs) d h =
    apply_cluster_records-IsCoherent read_only saved rs d h
changed-IsCoherent (cache_updated cs) d h = record {
  records_built = h.records_built;
  cache_built = refl;
}
changed-IsCoherent (compacted now) d h = compact-IsCoherent now d h
changed-IsCoherent (servers_updated rows) d h = kept-IsCoherent d _ refl refl refl refl h
changed-IsCoherent (settings_updated r l c s) d h = kept-IsCoherent d _ refl refl refl refl h
changed-IsCoherent (stats_updated s) d h = kept-IsCoherent d _ refl refl refl refl h
changed-IsCoherent query_counted d h = kept-IsCoherent d _ refl refl refl refl h
changed-IsCoherent hit_counted d h = kept-IsCoherent d _ refl refl refl refl h
changed-IsCoherent block_counted d h = kept-IsCoherent d _ refl refl refl refl h
changed-IsCoherent forward_counted d h = kept-IsCoherent d _ refl refl refl refl h
changed-IsCoherent answer_counted d h = kept-IsCoherent d _ refl refl refl refl h
changed-IsCoherent (source_recorded s n) d h = kept-IsCoherent d _ refl refl refl refl h
changed-IsCoherent sources_cleared d h = kept-IsCoherent d _ refl refl refl refl h

-- If the two maps of the store are those that the builders make of its records and entries, they
-- still are after any changes of the store, in whatever order: updates of records, of entries, of
-- servers, settings and statistics, the records of a peer, and compactions.
pub run-IsCoherent : (cs : List Change) (d : DataStore) → IsCoherent d → IsCoherent (run cs d)
unfolding run
run-IsCoherent [] d h = h
run-IsCoherent (c ∷ cs) d h = run-IsCoherent cs (changed c d) (changed-IsCoherent c d h)
