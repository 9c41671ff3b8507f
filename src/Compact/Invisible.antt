-- ===== src/Compact/Invisible.antt =====
-- data/cache_compact.go: what a compaction changes for the questions behind it.
use dnsplane.Base.{
  ℕ, ◌-◌, ◌≤◌, ◌≡◌, refl, sym, ◌∙◌, Bool, true, false, ◌||◌, not, List, [], ◌∷◌, Option, none, some,
  arith, is_empty, filter, all, length, ◌==◌, if◌then◌else◌, Bool-cases, inl, inr,
}
use dnsplane.Text.{Text, to_upper, trim_space}
use dnsplane.Text.Split.{Avoids}
use dnsplane.Library.{RrLibrary}
use dnsplane.Records.Normalize.{normalize_record_name_key, normalize_record_type}
use dnsplane.Cache.{CacheRecord}
use dnsplane.LookupIndex.Index.{build_cache_record_index, dns_cache_idx_key, cache_idx_key}
use dnsplane.LookupIndex.Coherent.{has_plain_name, fetch-build_from}
use dnsplane.LookupIndex.Fresh.{filter-has_keys}
use dnsplane.LookupIndex.Answer.{
  ResolverData, Search, hit, miss, search_in, search_twice, search_cache, keep_stale, has_keys,
  lookup_cache_rr, lookup_rrset_cache, fast_cache, unhandled, has_rrsets, enabled_local,
  rr_of_search, rrs_of_search, fast_cached, fast_rrset, try_fast_local_or_cache, is_rrset,
  is_parsed_rrset,
}
use dnsplane.Compact.{is_kept, compact_expired_cache_records}

-- The entries that a compaction removes are not found later on, if no stale entry is asked for.
keep_stale-false : (c : CacheRecord) (best : Option CacheRecord) → keep_stale false c best ≡ best
unfolding keep_stale
keep_stale-false c (some b) = refl
keep_stale-false c none = refl

search_in-kept :
    (usable wanted : CacheRecord → Bool) (now later : ℕ) (cs : List CacheRecord)
    (best : Option CacheRecord)
    → now ≤ later
    → search_in usable later false (filter wanted (filter (is_kept now) cs)) best
      ≡ search_in usable later false (filter wanted cs) best
unfolding search_in is_kept
search_in-kept usable wanted now later [] best h = refl
search_in-kept usable wanted now later (c ∷ cs) best h =
    ground (arith, search_in-kept usable wanted now later cs best, keep_stale-false c best)

-- The map of the cache is the builder's, as every store of entries leaves it, and no normalized name
-- has a zero byte.
pub record IsWarm (d : ResolverData) : Type 0 where
  pub built : d.cache_record_idx ≡ build_cache_record_index d.cache_records
  pub plain : all (λ (c : CacheRecord). has_plain_name c.dns_record) d.cache_records ≡ true

all-filter_all :
    (p q : CacheRecord → Bool) (cs : List CacheRecord)
    → all p cs ≡ true
    → all p (filter q cs) ≡ true
all-filter_all p q [] h = refl
all-filter_all p q (c ∷ cs) h = ground (arith, all-filter_all p q cs)

filter-empty :
    (p : CacheRecord → Bool) (cs : List CacheRecord) → is_empty cs ≡ true → filter p cs ≡ []
filter-empty p [] h = refl
filter-empty p (c ∷ cs) h = ground arith

abbrev answering : Text → Text → List CacheRecord → List CacheRecord
answering qname record_type =
    filter (has_keys (normalize_record_name_key qname) (normalize_record_type record_type))

module _ (qname record_type : Text) (later : ℕ)
    (no_zero : Avoids 0 (normalize_record_name_key qname)) where
  search_cache-warm :
      (usable : CacheRecord → Bool) (d : ResolverData)
      → IsWarm d
      → search_cache usable d qname record_type later false
        ≡ search_twice usable later false
            (answering qname record_type d.cache_records)
            (answering qname record_type d.cache_records)
  unfolding search_cache build_cache_record_index
  search_cache-warm usable d warm =
      rw
        (
          warm.built,
          fetch-build_from cache_idx_key (dns_cache_idx_key qname record_type) d.cache_records,
          filter-has_keys qname record_type d.cache_records no_zero warm.plain,
        )
        refl

  search_cache-empty :
      (usable : CacheRecord → Bool) (d : ResolverData)
      → IsWarm d
      → is_empty d.cache_records ≡ true
      → search_cache usable d qname record_type later false ≡ miss none
  unfolding search_twice search_in
  search_cache-empty usable d warm h =
      rw
        (
          search_cache-warm usable d warm,
          filter-empty
              (has_keys (normalize_record_name_key qname) (normalize_record_type record_type))
              d.cache_records h,
        )
        refl

  abbrev second_loop : (CacheRecord → Bool) → List CacheRecord → Search → Search
  second_loop usable xs (hit c) = hit c
  second_loop usable xs (miss best) = search_in usable later false xs best

  search_twice-second_loop :
      (usable : CacheRecord → Bool) (xs : List CacheRecord) (s : Search)
      → search_in usable later false xs none ≡ s
      → search_twice usable later false xs xs ≡ second_loop usable xs s
  unfolding search_twice
  search_twice-second_loop usable xs (hit c) h = rw (search_twice, h) refl
  search_twice-second_loop usable xs (miss best) h = rw (search_twice, h) refl

  second_loop-same :
      (usable : CacheRecord → Bool) (xs ys : List CacheRecord) (s : Search)
      → ((best : Option CacheRecord)
          → search_in usable later false xs best ≡ search_in usable later false ys best)
      → second_loop usable xs s ≡ second_loop usable ys s
  second_loop-same usable xs ys (hit c) h = refl
  second_loop-same usable xs ys (miss best) h = h best

  search_twice-same :
      (usable : CacheRecord → Bool) (xs ys : List CacheRecord)
      → ((best : Option CacheRecord)
          → search_in usable later false xs best ≡ search_in usable later false ys best)
      → search_twice usable later false xs xs ≡ search_twice usable later false ys ys
  search_twice-same usable xs ys h =
      let s = search_in usable later false ys none in
      search_twice-second_loop usable xs s (h none)
      ∙ second_loop-same usable xs ys s h
      ∙ sym (search_twice-second_loop usable ys s refl)

  -- The data with the entries that a compaction keeps.
  abbrev kept : ℕ → ResolverData → ResolverData
  kept now d = record d {
    cache_records = filter (is_kept now) d.cache_records;
    cache_record_idx = build_cache_record_index (filter (is_kept now) d.cache_records);
  }

  kept-IsWarm : (now : ℕ) (d : ResolverData) → IsWarm d → IsWarm (kept now d)
  kept-IsWarm now d warm = record {
    built = refl;
    plain =
        all-filter_all (λ c. has_plain_name c.dns_record) (is_kept now) d.cache_records warm.plain;
  }

  search_cache-kept :
      (usable : CacheRecord → Bool) (now : ℕ) (d : ResolverData)
      → now ≤ later
      → IsWarm d
      → search_cache usable (kept now d) qname record_type later false
        ≡ search_cache usable d qname record_type later false
  search_cache-kept usable now d h warm =
      search_cache-warm usable (kept now d) (kept-IsWarm now d warm)
      ∙ search_twice-same usable _ _ (λ best.
        search_in-kept usable
          (has_keys (normalize_record_name_key qname) (normalize_record_type record_type)) now later
          d.cache_records best h)
      ∙ sym (search_cache-warm usable d warm)

  module _ (lib : RrLibrary) where
    -- The cache's part of the answer, whatever the number of entries.
    fast_cache-warm :
        (d : ResolverData)
        → IsWarm d
        → d.stale_while_revalidate ≡ false
        → fast_cache lib d qname record_type later ≡ (
            if not d.cache_enabled
            then unhandled
            else if has_rrsets (to_upper (trim_space record_type))
            then fast_rrset lib
                (if not (has_rrsets (normalize_record_type record_type))
                  then ([], false)
                  else rrs_of_search lib later
                      (search_cache (is_parsed_rrset lib) d qname record_type later false))
                (fast_cached lib (
                  rr_of_search lib later (
                    search_cache
                      (λ (c : CacheRecord). not (is_rrset c))
                      d
                      qname
                      record_type
                      later
                      false)))
            else fast_cached lib (
                rr_of_search lib later (
                  search_cache
                    (λ (c : CacheRecord). not (is_rrset c))
                    d
                    qname
                    record_type
                    later
                    false)))
    unfolding fast_cache lookup_cache_rr lookup_rrset_cache rr_of_search rrs_of_search fast_cached
        fast_rrset
    fast_cache-warm d warm off = elim (Bool-cases (is_empty d.cache_records)) [
      | inl e ↦
          rw
            (
              search_cache-empty (is_parsed_rrset lib) d warm e,
              search_cache-empty (λ (c : CacheRecord). not (is_rrset c)) d warm e,
              e,
            )
            (ground arith)
      | inr n ↦ rw (off, n) (ground arith)
    ]

    fast_cache-kept :
        (now : ℕ) (d : ResolverData)
        → now ≤ later
        → IsWarm d
        → d.stale_while_revalidate ≡ false
        → fast_cache lib (kept now d) qname record_type later
          ≡ fast_cache lib d qname record_type later
    fast_cache-kept now d h warm off =
        rw
          (
            fast_cache-warm (kept now d) (kept-IsWarm now d warm) off,
            fast_cache-warm d warm off,
            search_cache-kept (is_parsed_rrset lib) now d h warm,
            search_cache-kept (λ (c : CacheRecord). not (is_rrset c)) now d h warm,
          )
          refl

    try_fast-kept :
        (now : ℕ) (d : ResolverData) (ptr : Bool)
        → now ≤ later
        → IsWarm d
        → d.stale_while_revalidate ≡ false
        → try_fast_local_or_cache lib (kept now d) qname record_type ptr later
          ≡ try_fast_local_or_cache lib d qname record_type ptr later
    unfolding try_fast_local_or_cache enabled_local
    try_fast-kept now d true h warm off = refl
    try_fast-kept now d false h warm off = rw (fast_cache-kept now d h warm off) refl

-- Where stale entries are not served, a compaction of the cache changes no later answer of
-- TryFastLocalOrCache, for any name and type, at any time from that of the compaction on. The map
-- of the cache is the builder's, and no normalized name, of the question or of an entry, has a
-- zero byte.
pub try_fast-compact_expired_cache_records :
    (lib : RrLibrary) (qname record_type : Text) (ptr : Bool) (now later : ℕ) (d : ResolverData)
    → now ≤ later
    → Avoids 0 (normalize_record_name_key qname)
    → IsWarm d
    → d.stale_while_revalidate ≡ false
    → try_fast_local_or_cache lib
        (compact_expired_cache_records now d).1
        qname
        record_type
        ptr
        later
      ≡ try_fast_local_or_cache lib d qname record_type ptr later
unfolding compact_expired_cache_records
try_fast-compact_expired_cache_records lib qname record_type ptr now later d h no_zero warm off =
    elim (Bool-cases (
      is_empty d.cache_records
      || (length d.cache_records - length (filter (is_kept now) d.cache_records) == 0))) [
        | inl e ↦ rw e refl
        | inr n ↦ rw n (try_fast-kept qname record_type later no_zero lib now d ptr h warm off)
      ]
