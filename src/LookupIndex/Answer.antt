-- ===== src/LookupIndex/Answer.antt =====
-- The lookups of data/lookup_index.go on the resolver's data, under one lock: the cache, the cached
-- RRsets, and TryFastLocalOrCache.
use dnsplane.Base.{
  ℕ, ◌-◌, ◌/◌, ◌%◌, Bool, true, false, ◌&&◌, ◌||◌, not, List, [], ◌∷◌, Option, none, some, is_empty,
  filter, ltb, ◌==◌, is_some, if◌then◌else◌,
}
use dnsplane.Text.{Text, codes, text_eq, has_prefix, to_upper, trim_space}
use dnsplane.Library.{RrLibrary}
use dnsplane.Records.Types.{DnsRecord}
use dnsplane.Records.Normalize.{normalize_record_name_key, normalize_record_type}
use dnsplane.Records.Lookup.{rr_string, find_all_records}
use dnsplane.Cache.{CacheRecord, second}
use dnsplane.LookupIndex.Index.{
  IndexMap, index_get, dns_cache_idx_key, fetch, lookup_local_non_ptr, build_dns_record_index,
  build_cache_record_index,
}
use dnsplane.LookupIndex.RrSet.{rr_set_cache_prefix, parse_rrset_cache_value, clip_rrset_ttls}

-- The fields of DNSResolverData that the lookups read, with the three settings.
pub record ResolverData : Type 0 where
  pub local_records_enabled : Bool
  pub cache_enabled : Bool  -- Settings.CacheRecords
  pub stale_while_revalidate : Bool
  pub dns_records : List DnsRecord
  pub cache_records : List CacheRecord
  pub dns_record_idx : IndexMap
  pub cache_record_idx : IndexMap

-- WarmIndexes, which every store of records or cache entries runs too
unfoldable pub warm_indexes : ResolverData → ResolverData
warm_indexes d = record d {
  dns_record_idx = build_dns_record_index d.dns_records;
  cache_record_idx = build_cache_record_index d.cache_records;
}

abbrev pub is_rrset : CacheRecord → Bool
is_rrset c = has_prefix c.dns_record.value rr_set_cache_prefix

-- A search for an entry: one that has not expired, or else the first expired one, if such are asked for.
pub data Search : Type 0 where
  hit : CacheRecord → Search
  miss : Option CacheRecord → Search

-- `if stale && bestStale == nil { bestStale = rec }`
unfoldable pub keep_stale : Bool → CacheRecord → Option CacheRecord → Option CacheRecord
keep_stale stale c (some best) = some best
keep_stale stale c none = if stale then some c else none

-- One loop over the entries that pass the test.
unfoldable pub search_in :
    (CacheRecord → Bool) → ℕ → Bool → List CacheRecord → Option CacheRecord → Search
search_in usable now stale [] best = miss best
search_in usable now stale (c ∷ cs) best =
    let skip = search_in usable now stale cs best in
    let expired = search_in usable now stale cs (keep_stale stale c best) in
    if not (usable c) then skip else if ltb now c.expiry then hit c else expired

-- The loop over the indexed entries, then, if it has no hit, the loop over all with the keys.
unfoldable pub search_twice :
    (CacheRecord → Bool) → ℕ → Bool → List CacheRecord → List CacheRecord → Search
search_twice usable now stale indexed scanned = elim (search_in usable now stale indexed none) [
  | hit c ↦ hit c
  | miss best ↦ search_in usable now stale scanned best
]

unfoldable pub has_keys : Text → Text → CacheRecord → Bool
has_keys name_key type_key c =
    text_eq (normalize_record_name_key c.dns_record.name) name_key
    && text_eq (normalize_record_type c.dns_record.type) type_key

unfoldable pub search_cache : (CacheRecord → Bool) → ResolverData → Text → Text → ℕ → Bool → Search
search_cache usable d qname record_type now stale =
    search_twice usable now stale
      (fetch d.cache_records (index_get (dns_cache_idx_key qname record_type) d.cache_record_idx))
      (filter (has_keys (normalize_record_name_key qname) (normalize_record_type record_type))
        d.cache_records)

-- uint32(expiry.Sub(now).Seconds())
unfoldable pub seconds_left : ℕ → ℕ → ℕ
seconds_left expiry now = (expiry - now) / second % 4294967296

-- `case "A", "AAAA", "HTTPS", "SVCB"`
unfoldable pub has_rrsets : Text → Bool
has_rrsets t =
    text_eq t (codes "A")
    || text_eq t (codes "AAAA")
    || text_eq t (codes "HTTPS")
    || text_eq t (codes "SVCB")

-- What TryFastLocalOrCache answers: handled = false, or the one result that is not empty, with isStale.
pub data Fast (Rr : Type 0) : Type 0 where
  unhandled : Fast Rr
  local : List Rr → Fast Rr
  rrset : List Rr → Bool → Fast Rr
  cached : Rr → Bool → Fast Rr

module _ (lib : RrLibrary) where
  open lib use {Rr, new_rr}

  unfoldable pub dns_record_to_rr : DnsRecord → ℕ → Option Rr
  dns_record_to_rr r ttl = new_rr (rr_string r.name ttl r.type r.value)

  -- A single record and whether it is stale.
  unfoldable pub rr_of_search : ℕ → Search → Option Rr × Bool
  rr_of_search now (hit c) = (dns_record_to_rr c.dns_record (seconds_left c.expiry now), false)
  rr_of_search now (miss (some c)) = (dns_record_to_rr c.dns_record 1, true)
  rr_of_search now (miss none) = (none, false)

  unfoldable pub lookup_cache_rr : ResolverData → Text → Text → ℕ → Bool → Option Rr × Bool
  unfolding rr_of_search
  lookup_cache_rr d qname record_type now stale =
      if is_empty d.cache_records
      then (none, false)
      else rr_of_search now (search_cache (λ c. not (is_rrset c)) d qname record_type now stale)

  -- `strings.HasPrefix` and the parse of the loops
  unfoldable pub is_parsed_rrset : CacheRecord → Bool
  is_parsed_rrset c = is_rrset c && is_some (parse_rrset_cache_value lib c.dns_record.value)

  -- ttl, or 1 in place of 0
  at_least_one : ℕ → ℕ
  at_least_one t = if t == 0 then 1 else t

  unfoldable pub clip_parsed : Option (List Rr) → ℕ → Bool → List Rr × Bool
  clip_parsed none ttl stale = ([], false)
  clip_parsed (some rrs) ttl stale = (clip_rrset_ttls lib rrs ttl stale, stale)

  unfoldable pub rrs_of_search : ℕ → Search → List Rr × Bool
  unfolding clip_parsed at_least_one
  rrs_of_search now (hit c) =
      clip_parsed (parse_rrset_cache_value lib c.dns_record.value)
        (at_least_one (seconds_left c.expiry now)) false
  rrs_of_search now (miss (some c)) =
      clip_parsed (parse_rrset_cache_value lib c.dns_record.value) 1 true
  rrs_of_search now (miss none) = ([], false)

  unfoldable pub lookup_rrset_cache : ResolverData → Text → Text → ℕ → Bool → List Rr × Bool
  unfolding rrs_of_search
  lookup_rrset_cache d qname record_type now stale =
      if not (has_rrsets (normalize_record_type record_type)) || is_empty d.cache_records
      then ([], false)
      else rrs_of_search now (search_cache is_parsed_rrset d qname record_type now stale)

  unfoldable pub fast_cached : Option Rr × Bool → Fast Rr
  fast_cached (none, stale) = unhandled
  fast_cached (some rr, stale) = cached rr stale

  unfoldable pub fast_rrset : List Rr × Bool → Fast Rr → Fast Rr
  fast_rrset ([], stale) otherwise = otherwise
  fast_rrset (rr ∷ rrs, stale) otherwise = rrset (rr ∷ rrs) stale

  -- The cache's part of TryFastLocalOrCache.
  unfoldable pub fast_cache : ResolverData → Text → Text → ℕ → Fast Rr
  unfolding fast_cached fast_rrset
  fast_cache d qname record_type now =
      let stale = d.stale_while_revalidate in
      let single = fast_cached (lookup_cache_rr d qname record_type now stale) in
      if not d.cache_enabled || is_empty d.cache_records
      then unhandled
      else if has_rrsets (to_upper (trim_space record_type))
      then fast_rrset (lookup_rrset_cache d qname record_type now stale) single
      else single

  unfoldable pub fast_local : List Rr → Fast Rr → Fast Rr
  fast_local [] otherwise = otherwise
  fast_local (rr ∷ rrs) otherwise = local (rr ∷ rrs)

  -- The local answers that TryFastLocalOrCache looks at.
  unfoldable pub enabled_local : ResolverData → Text → Text → List Rr
  enabled_local d qname record_type =
      if d.local_records_enabled
      then lookup_local_non_ptr new_rr d.dns_records d.dns_record_idx qname record_type
      else []

  unfoldable pub try_fast_local_or_cache : ResolverData → Text → Text → Bool → ℕ → Fast Rr
  unfolding fast_local
  try_fast_local_or_cache d qname record_type qtype_ptr now =
      if qtype_ptr
      then unhandled
      else fast_local (enabled_local d qname record_type) (fast_cache d qname record_type now)

  unfoldable pub lookup_local_rrs : ResolverData → Text → Text → Bool → List Rr
  lookup_local_rrs d qname record_type auto_build =
      if not d.local_records_enabled
      then []
      else if text_eq (to_upper (trim_space record_type)) (codes "PTR")
      then find_all_records new_rr d.dns_records qname record_type auto_build
      else lookup_local_non_ptr new_rr d.dns_records d.dns_record_idx qname record_type
