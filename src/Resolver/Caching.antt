-- ===== src/Resolver/Caching.antt =====
-- What resolver/resolver.go writes into the cache: cacheDNSResponse, cacheSyntheticRRSetAnswer, and
-- the two together behind an upstream's answer, also in backgroundRefresh. The list of entries takes
-- the place of the store; a store that is nil is not modelled. The type of a question is its text by
-- perfQTypeString, which for a type that dns.TypeToString knows is the text there.
use dnsplane.Base.{
  ℕ, suc, ◌+◌, ◌*◌, Bool, true, false, ◌&&◌, ◌||◌, not, List, [], ◌∷◌, Option, none, some, is_empty,
  ltb, ◌==◌, if◌then◌else◌,
}
use dnsplane.Base.Int.{ℤ, pos, negsuc}
use dnsplane.Text.{Text, text_eq}
use dnsplane.Library.{RrLibrary, RrView, cname}
use dnsplane.Safecast.{int_to_uint32_clamp}
use dnsplane.Records.Types.{no_record}
use dnsplane.Records.Normalize.{normalize_record_name_key}
use dnsplane.Cache.{CacheRecord, Clock, second, floor_ttl}
use dnsplane.Cache
use dnsplane.LookupIndex.RrSet.{build_rrset_cache_value}
use dnsplane.LookupIndex.Answer.{is_rrset, has_rrsets}
use dnsplane.Servers.Types.{DnsServer, UpstreamEndpoint}
use dnsplane.Servers.Whitelist.{get_upstream_endpoints_for_query}
use dnsplane.Servers.Endpoint.{fallback_endpoint}
use dnsplane.UpstreamHealth.{Tracker, filter_healthy_upstream_endpoints}
use dnsplane.Resolver.Race.{Msg, is_success}
use dnsplane.Dnssec.Validate

-- The settings that are read.
pub record Settings : Type 0 where
  pub cache_records : Bool
  pub min_cache_ttl_seconds : ℤ
  pub health_checks_enabled : Bool
  pub fallback_server_ip : Text
  pub fallback_server_port : Text
  pub fallback_server_transport : Text
  pub auto_build_ptr_from_a : Bool
  pub dnssec : Validate.Config

pub record Question : Type 0 where
  pub name : Text
  pub type : Text

-- minTTL: 600 in place of 0
unfoldable pub min_ttl_of : ℤ → ℕ
min_ttl_of (negsuc n) = int_to_uint32_clamp (negsuc n)
min_ttl_of (pos n) = if n == 0 then 600 else int_to_uint32_clamp (pos n)

-- The entry may hold the RRset of the question.
unfoldable pub is_slot : Text → Text → CacheRecord → Bool
is_slot name type c =
    text_eq (normalize_record_name_key c.dns_record.name) (normalize_record_name_key name)
    && text_eq c.dns_record.type type
    && is_rrset c

-- The record, the expiry and the last query of the new entry, the timestamp of the old one.
unfoldable pub overwrite_slot : CacheRecord → CacheRecord → CacheRecord
overwrite_slot new old = record old {
  dns_record = new.dns_record;
  expiry = new.expiry;
  last_query = new.last_query;
}

-- The search for `idx`, and the write.
unfoldable pub put_rrset : CacheRecord → List CacheRecord → List CacheRecord
put_rrset new [] = new ∷ []
put_rrset new (c ∷ cs) =
    if is_slot new.dns_record.name new.dns_record.type c
    then overwrite_slot new c ∷ cs
    else c ∷ put_rrset new cs

module _ (lib : RrLibrary) where
  open lib use {Rr, ttl, view}

  is_cname : RrView → Bool
  is_cname (cname target) = true
  is_cname _ = false

  unfoldable pub should_cache_rrset_for_question : Question → List Rr → Bool
  unfolding is_cname
  should_cache_rrset_for_question q [] = false
  should_cache_rrset_for_question q (rr ∷ []) = has_rrsets q.type && is_cname (view rr)
  should_cache_rrset_for_question q (_ ∷ _ ∷ _) = has_rrsets q.type

  -- The loop over the TTLs, from the value `t` on.
  unfoldable pub lowest_ttl : ℕ → List Rr → ℕ
  lowest_ttl t [] = t
  lowest_ttl t (rr ∷ rrs) = lowest_ttl (if (t == 0) || ltb (ttl rr) t then ttl rr else t) rrs

  unfoldable pub rrset_ttl : ℕ → List Rr → ℕ
  rrset_ttl min_ttl answer =
      let t = lowest_ttl 0 answer in floor_ttl (if t == 0 then min_ttl else t) min_ttl

  unfoldable pub rrset_entry : Settings → Clock → Question → List Rr → CacheRecord
  rrset_entry settings clock q answer =
      let t = rrset_ttl (min_ttl_of settings.min_cache_ttl_seconds) answer in
      record {
        dns_record = record no_record {
          name = q.name;
          type = q.type;
          value = build_rrset_cache_value lib answer;
          ttl = t;
        };
        expiry = clock.at_expiry + t * second;
        timestamp = clock.at_timestamp;
        last_query = clock.at_query;
      }

  unfoldable pub cache_synthetic_rrset_answer :
      Settings → Clock → Question → List Rr → List CacheRecord → List CacheRecord
  cache_synthetic_rrset_answer settings clock q answer cs =
      if is_empty answer || not settings.cache_records
      then cs
      else put_rrset (rrset_entry settings clock q answer) cs

  -- The loop of cacheDNSResponse; the clocks of the calls of Add, by their number.
  unfoldable pub add_all : (ℕ → Clock) → ℕ → ℕ → List Rr → List CacheRecord → List CacheRecord
  add_all clocks i min_ttl [] cs = cs
  add_all clocks i min_ttl (rr ∷ rrs) cs =
      add_all clocks (suc i) min_ttl rrs (Cache.add lib (clocks i) cs rr min_ttl)

  unfoldable pub cache_dns_response :
      Settings → (ℕ → Clock) → List Rr → List CacheRecord → List CacheRecord
  cache_dns_response settings clocks rrs cs =
      if is_empty rrs || not settings.cache_records
      then cs
      else add_all clocks 0 (min_ttl_of settings.min_cache_ttl_seconds) rrs cs

  unfoldable pub cache_upstream_answer_after_success :
      Settings → (ℕ → Clock) → Clock → Question → List Rr → List CacheRecord → List CacheRecord
  cache_upstream_answer_after_success settings clocks clock q answer cs =
      let cs = cache_dns_response settings clocks answer cs in
      if should_cache_rrset_for_question q answer
      then cache_synthetic_rrset_answer settings clock q answer cs
      else cs

  -- The endpoints that backgroundRefresh asks, in their order.
  unfoldable pub refresh_endpoints :
      Settings → Tracker → List DnsServer → Question → List UpstreamEndpoint
  refresh_endpoints settings t rows q =
      let chosen = get_upstream_endpoints_for_query rows q.name true in
      let fallback =
        fallback_endpoint settings.fallback_server_ip settings.fallback_server_port
          settings.fallback_server_transport in
      filter_healthy_upstream_endpoints t settings.health_checks_enabled (
        if is_empty chosen
          && not (is_empty settings.fallback_server_ip)
          && not (is_empty settings.fallback_server_port)
        then fallback ∷ []
        else chosen)

  -- The loop over the endpoints: the answer of the first success. `none` is an error of the query.
  unfoldable pub first_answer :
      (UpstreamEndpoint → Option (Msg Rr)) → List UpstreamEndpoint → List Rr
  first_answer query [] = []
  first_answer query (e ∷ es) =
      let rest = first_answer query es in
      elim (query e) [ none ↦ rest | some m ↦ if is_success m then m.answer else rest ]

  -- An answer that counts as a success is not empty, and an empty one is not cached.
  unfoldable pub background_refresh :
      Settings
      → (ℕ → Clock)
      → Clock
      → Tracker
      → List DnsServer
      → (UpstreamEndpoint → Option (Msg Rr))
      → Question
      → List CacheRecord
      → List CacheRecord
  background_refresh settings clocks clock t rows query q cs =
      cache_upstream_answer_after_success settings clocks clock q
        (first_answer query (refresh_endpoints settings t rows q)) cs
