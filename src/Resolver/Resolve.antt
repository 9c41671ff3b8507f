-- ===== src/Resolver/Resolve.antt =====
-- resolver/resolver.go: HandleQuestion, with the local, cached, built-in, blocked and upstream
-- answers around the race. The log, the observer, the performance counters and a resolver or store
-- that is nil are not modelled. What the clock, the network and the schedule of the goroutines give
-- is an argument.
use dnsplane.Base.{
  ℕ, suc, Bool, true, false, ◌&&◌, ◌||◌, not, List, [], ◌∷◌, ◌++◌, Option, none, some, is_empty,
  any, map, length, if◌then◌else◌,
}
use dnsplane.Text.{Text, codes, text_eq, trim_space, to_lower, trim_dot}
use dnsplane.Library.{RrLibrary}
use dnsplane.Adblock.{is_blocked}
use dnsplane.Cache.{CacheRecord, Clock}
use dnsplane.LookupIndex.Index.{build_cache_record_index}
use dnsplane.LookupIndex.Answer.{
  ResolverData, Fast, unhandled, local, rrset, cached, try_fast_local_or_cache, lookup_local_rrs,
  lookup_cache_rr,
}
use dnsplane.Servers.Types.{DnsServer, UpstreamEndpoint, health_key}
use dnsplane.Servers.Whitelist.{server_matches_query, get_upstream_endpoints_for_query}
use dnsplane.Servers.Endpoint.{append_per_server_fallbacks, fallback_endpoint}
use dnsplane.UpstreamHealth.{Tracker, filter_healthy_upstream_endpoints, record_forward_success}
use dnsplane.Dnssec.{DnssecLibrary}
use dnsplane.Dnssec.Validate.{apply_to_upstream_answer}
use dnsplane.Dnssec.Sign.{Signer, sign_local_answer_if_do}
use dnsplane.Resolver.Race.{
  Msg, UpstreamResult, ParMsg, from_local, from_cache, from_upstream, Race, won_local, won_cache,
  won_upstream, no_answer, waiting, fell_through, race,
}
use dnsplane.Resolver.Caching.{
  Settings, Question, cache_dns_response, cache_upstream_answer_after_success,
}

-- The parts of the store that the resolver reads and writes. The setting CacheRecords is that of the
-- resolver's data.
pub record Store : Type 0 where
  pub resolver_data : ResolverData
  pub own_settings : Settings
  pub servers : List DnsServer
  pub tracker : Tracker
  pub block_list : Option (List Text)
  pub cache_hits : ℕ
  pub total_blocks : ℕ
  pub queries_answered : ℕ

abbrev pub settings_of : Store → Settings
settings_of st = record st.own_settings { cache_records = st.resolver_data.cache_enabled }

-- UpdateCacheRecords
unfoldable pub with_cache : List CacheRecord → Store → Store
with_cache cs st = record st {
  resolver_data = record st.resolver_data {
    cache_records = cs;
    cache_record_idx = build_cache_record_index cs;
  };
}

-- The outcome that the observer is told, or that the query never ends.
pub data How : Type 0 where
  by_local by_cache by_upstream by_none by_blocked hangs : How

pub record Run (Rr : Type 0) : Type 0 where
  pub store : Store
  pub response : Msg Rr
  pub asked : List UpstreamEndpoint  -- the upstreams that are queried
  pub refreshes : Bool  -- backgroundRefresh is started
  pub how : How

-- dns.RcodeNameError and dns.RcodeServerFailure
abbrev rcode_name_error : ℕ
rcode_name_error = 3

abbrev rcode_server_failure : ℕ
rcode_server_failure = 2

unfoldable pub is_localhost_qname : Text → Bool
is_localhost_qname name = text_eq (trim_dot (to_lower (trim_space name))) (codes "localhost")

unfoldable pub check_blocked : Option (List Text) → Question → Bool
check_blocked none q = false
check_blocked (some domains) q = is_blocked domains (trim_dot q.name)

-- dns.TypeA or dns.TypeAAAA
unfoldable pub is_address_question : Question → Bool
is_address_question q = text_eq q.type (codes "A") || text_eq q.type (codes "AAAA")

-- The endpoints that resolveFastPath asks: those for the name with their fallbacks, and the global
-- fallback unless a whitelist covers the name or an endpoint has its health key.
global_fallback : Settings → List DnsServer → Text → Option UpstreamEndpoint
global_fallback s rows name =
    if any (λ r. r.active && server_matches_query r name) rows
      || is_empty s.fallback_server_ip
      || is_empty s.fallback_server_port
    then none
    else some
        (fallback_endpoint s.fallback_server_ip s.fallback_server_port s.fallback_server_transport)

with_fallback : List UpstreamEndpoint → Option UpstreamEndpoint → List UpstreamEndpoint
with_fallback eps none = eps
with_fallback eps (some f) =
    if is_empty f.addr || any (λ e. text_eq (health_key e) (health_key f)) eps
    then eps
    else eps ++ f ∷ []

unfoldable pub servers_to_query : Settings → List DnsServer → Tracker → Text → List UpstreamEndpoint
unfolding global_fallback with_fallback
servers_to_query s rows t name =
    let chosen = get_upstream_endpoints_for_query rows name true in
    let with_own = if is_empty chosen then chosen else append_per_server_fallbacks chosen rows in
    filter_healthy_upstream_endpoints t s.health_checks_enabled
      (with_fallback with_own (global_fallback s rows name))

module _ (lib : RrLibrary) (dns : DnssecLibrary lib) where
  open lib use {Rr, new_rr}

  -- What the world gives to one question.
  pub record Env : Type 0 where
    pub now : ℕ  -- in nanoseconds
    pub seconds : ℕ  -- time.Now().Unix()
    pub add_clocks : ℕ → Clock
    pub rrset_clock : Clock
    pub replies : List UpstreamEndpoint → List (UpstreamResult Rr)  -- in their order of arrival
    pub arrange : ParMsg Rr → ParMsg Rr → List (ParMsg Rr) → List (ParMsg Rr)  -- of a PTR question
    pub wants_do : Bool  -- the query has EDNS with the DO bit
    pub signer : Option (Signer lib dns)

  unfoldable pub builtin_localhost_rrs : Question → List Rr
  builtin_localhost_rrs q =
      let of = λ (t : Text). elim (new_rr t) as (λ _. List Rr) [ none ↦ [] | some rr ↦ rr ∷ [] ] in
      if not (is_localhost_qname q.name)
      then []
      else if text_eq q.type (codes "A")
      then of (codes "localhost. 604800 IN A 127.0.0.1")
      else if text_eq q.type (codes "AAAA")
      then of (codes "localhost. 604800 IN AAAA ::1")
      else []

  unfoldable pub finish : How → Store → Msg Rr → Run Rr
  finish how st resp = record {
    store = st;
    response = resp;
    asked = [];
    refreshes = false;
    how = how;
  }

  -- The record that answers a blocked question, by its type.
  unfoldable pub blocked_text : Question → Option Text
  blocked_text q =
      if text_eq q.type (codes "A")
      then some (q.name ++ codes " 300 IN A 0.0.0.0")
      else if text_eq q.type (codes "AAAA")
      then some (q.name ++ codes " 300 IN AAAA ::")
      else none

  unfoldable pub blocked_answer : Option Rr → Msg Rr → Msg Rr
  blocked_answer none resp = resp
  blocked_answer (some rr) resp = record resp { answer = resp.answer ++ rr ∷ [] }

  unfoldable pub blocked_response : Option Text → Msg Rr → Msg Rr
  unfolding blocked_answer
  blocked_response none resp = record resp { rcode = rcode_name_error }
  blocked_response (some t) resp = blocked_answer (new_rr t) resp

  unfoldable pub process_blocked_domain : Question → Store → Msg Rr → Run Rr
  unfolding finish blocked_response
  process_blocked_domain q st resp =
      finish by_blocked (record st { total_blocks = suc st.total_blocks })
        (blocked_response (blocked_text q) (record resp { authoritative = true }))

  unfoldable pub cache_answers : Env → List Rr → Store → Store
  cache_answers env rrs st =
      with_cache
        (cache_dns_response lib (settings_of st) env.add_clocks rrs st.resolver_data.cache_records)
        st

  unfoldable pub process_cached_records : Env → Question → List Rr → Store → Msg Rr → Run Rr
  unfolding finish cache_answers
  process_cached_records env q [] st resp = finish by_local st resp
  process_cached_records env q (rr ∷ rrs) st resp =
      let answered = record resp { answer = resp.answer ++ (rr ∷ rrs) } in
      let signed =
        sign_local_answer_if_do lib dns env.signer env.seconds env.wants_do q.name (rr ∷ rrs)
          answered in
      finish by_local (cache_answers env (rr ∷ rrs) st) (record signed { authoritative = true })

  -- IncrementCacheHits, and processCacheRecord or processCachedUpstreamRRs
  unfoldable pub process_cached : List Rr → Store → Msg Rr → Run Rr
  unfolding finish
  process_cached rrs st resp =
      finish by_cache (record st { cache_hits = suc st.cache_hits })
        (record resp { answer = resp.answer ++ rrs })

  unfoldable pub take_upstream : Env → Question → Msg Rr → Store → Msg Rr → Run Rr
  unfolding finish
  take_upstream env q m st resp =
      finish by_upstream
        (with_cache
          (cache_upstream_answer_after_success lib (settings_of st) env.add_clocks env.rrset_clock q
            m.answer st.resolver_data.cache_records)
          st)
        (record resp {
          answer = resp.answer ++ m.answer;
          authoritative = m.authoritative;
          rcode = m.rcode;
          authenticated_data = m.authenticated_data;
        })

  unfoldable pub process_upstream_answer : Env → Question → Msg Rr → Store → Msg Rr → Run Rr
  unfolding take_upstream finish
  process_upstream_answer env q m st resp =
      let checked =
        apply_to_upstream_answer lib dns st.own_settings.dnssec env.seconds env.wants_do m in
      if checked.0.1
      then finish by_upstream st (record resp { rcode = rcode_server_failure })
      else take_upstream env q checked.1 st resp

  -- What the loop does when the race is decided.
  unfoldable pub after_race : Env → Question → Race Rr → Store → Msg Rr → Run Rr
  unfolding finish
  after_race env q (won_local rrs) st resp = process_cached_records env q rrs st resp
  after_race env q (won_cache rr) st resp = process_cached (rr ∷ []) st resp
  after_race env q (won_upstream reply) st resp =
      process_upstream_answer env q reply.msg
        (record st {
          tracker = record_forward_success env.now (health_key reply.endpoint) st.tracker;
        })
        resp
  after_race env q no_answer st resp = finish by_none st resp
  after_race env q waiting st resp = finish hangs st resp
  after_race env q fell_through st resp = finish by_none st resp

  unfoldable pub is_ptr : Question → Bool
  is_ptr q = text_eq q.type (codes "PTR")

  -- The messages of a PTR question's own lookups.
  unfoldable pub ptr_local : Store → Question → ParMsg Rr
  ptr_local st q =
      from_local
        (lookup_local_rrs lib st.resolver_data q.name q.type st.own_settings.auto_build_ptr_from_a)

  unfoldable pub ptr_cache : Env → Store → Question → ParMsg Rr
  ptr_cache env st q = from_cache (
      if st.resolver_data.cache_enabled && not (is_empty st.resolver_data.cache_records)
      then (lookup_cache_rr lib st.resolver_data q.name q.type env.now false).0
      else none)

  -- The messages that the loop receives, in their order.
  unfoldable pub messages : Env → Store → Question → List UpstreamEndpoint → List (ParMsg Rr)
  unfolding is_ptr ptr_local ptr_cache
  messages env st q eps =
      let ups = map from_upstream (env.replies eps) in
      if is_ptr q
      then env.arrange (ptr_local st q) (ptr_cache env st q) ups
      else from_local [] ∷ from_cache none ∷ ups

  unfoldable pub ask_upstreams : Env → Question → Store → Msg Rr → Run Rr
  unfolding after_race
  ask_upstreams env q st resp =
      let eps = servers_to_query (settings_of st) st.servers st.tracker q.name in
      record (after_race env q (race (length eps) (messages env st q eps)) st resp) { asked = eps }

  -- Behind the local records and the cache.
  unfoldable pub resolve_uncached : Env → Question → Store → Msg Rr → Run Rr
  unfolding finish
  resolve_uncached env q st resp =
      let builtin = builtin_localhost_rrs q in
      if not (is_empty builtin)
      then finish by_local st (record resp { answer = resp.answer ++ builtin; rcode = 0 })
      else if is_address_question q && check_blocked st.block_list q
      then process_blocked_domain q st resp
      else ask_upstreams env q st resp

  unfoldable pub resolve_fast : Env → Question → Fast Rr → Store → Msg Rr → Run Rr
  resolve_fast env q unhandled st resp = resolve_uncached env q st resp
  resolve_fast env q (local rrs) st resp = process_cached_records env q rrs st resp
  resolve_fast env q (rrset rrs stale) st resp = record (process_cached rrs st resp) {
    refreshes = stale;
  }
  resolve_fast env q (cached rr stale) st resp = record (process_cached (rr ∷ []) st resp) {
    refreshes = stale;
  }

  unfoldable pub resolve_fast_path : Env → Question → Store → Msg Rr → Run Rr
  unfolding is_ptr resolve_fast
  resolve_fast_path env q st resp =
      if is_ptr q
      then ask_upstreams env q st resp
      else resolve_fast env q
          (try_fast_local_or_cache lib st.resolver_data q.name q.type false env.now) st resp

  unfoldable pub handle_ptr_records : Env → Question → List Rr → Store → Msg Rr → Run Rr
  handle_ptr_records env q [] st resp = resolve_fast_path env q st resp
  handle_ptr_records env q (rr ∷ rrs) st resp = process_cached_records env q (rr ∷ rrs) st resp

  unfoldable pub handle_ptr_question : Env → Question → Store → Msg Rr → Run Rr
  unfolding handle_ptr_records
  handle_ptr_question env q st resp =
      handle_ptr_records env q
        (lookup_local_rrs lib st.resolver_data q.name (codes "PTR")
          st.own_settings.auto_build_ptr_from_a)
        st resp

  unfoldable pub count_answered : Run Rr → Run Rr
  count_answered r = record r {
    store = record r.store { queries_answered = suc r.store.queries_answered };
  }

  unfoldable pub handle_question : Env → Question → Store → Msg Rr → Run Rr
  unfolding is_ptr count_answered
  handle_question env q st resp =
      count_answered
        (if is_ptr q then handle_ptr_question env q st resp else resolve_fast_path env q st resp)
