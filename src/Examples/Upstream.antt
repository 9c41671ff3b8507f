-- ===== src/Examples/Upstream.antt =====
-- Concrete upstream servers, replies and clients: dnsservers/, data/upstream_health.go,
-- resolver/resolver.go, abuse/ and adblock/.
use dnsplane.Base.{
  ℕ, ◌-◌, arith, ◌≡◌, refl, true, false, ◌&&◌, List, [], ◌∷◌, none, some, any, filter, is_empty,
  leb, ◌==◌, count_if, min, if◌then◌else◌,
}
use dnsplane.Text.{Text, codes, text_eq}
use dnsplane.Text.Dict.{get}
use dnsplane.Servers.Types.{DnsServer, no_server, UpstreamEndpoint, health_key}
use dnsplane.Servers.Whitelist.{server_matches_query, is_eligible, servers_for_query}
use dnsplane.Servers.Routing.{servers_for_query_lem}
use dnsplane.UpstreamHealth.{
  Tracker, is_unhealthy, threshold_or_default, probe_fail, record_forward_success,
  filter_healthy_upstream_endpoints,
}
use dnsplane.UpstreamHealth.Threshold.{fail_times, fail_times-after_success}
use dnsplane.UpstreamHealth.Filtering.{is_up, filter_healthy_upstream_endpoints_lem}
use dnsplane.Resolver.Race.{
  ParMsg, accept, success_of, from_local, from_cache, from_upstream, waiting, race,
}
use dnsplane.Resolver.Order.{by_priority, first_success, upstreams, race-by_priority, race-waiting}
use dnsplane.Abuse.{Limiter}
use dnsplane.Abuse.Window.{Query, answered, answered_lem}
use dnsplane.Adblock.{normalize_domain, is_blocked}
use dnsplane.Adblock.Blocked.{is_under, is_blocked_lem}

abbrev public_server : DnsServer
public_server = record no_server { address = codes "1.1.1.1"; port = codes "53"; active = true }

-- It is asked for the names of the office, and has a fallback.
abbrev office_server : DnsServer
office_server = record no_server {
  address = codes "10.0.0.1";
  port = codes "53";
  active = true;
  domain_whitelist = codes "corp.example" ∷ [];
  fallback_address = codes "10.0.0.2";
  fallback_port = codes "53";
}

abbrev rows : List DnsServer
rows = public_server ∷ office_server ∷ []

servers_for_query_lem_example :
    servers_for_query rows (codes "www.corp.example.") true
    ≡ filter
        (λ s.
          is_eligible true s
          && (if any (λ r. server_matches_query r (codes "www.corp.example.")) rows
              then server_matches_query s (codes "www.corp.example.")
              else is_empty s.domain_whitelist))
        rows
servers_for_query_lem_example = servers_for_query_lem rows (codes "www.corp.example.") true

abbrev first_endpoint : UpstreamEndpoint
first_endpoint = record { addr = codes "1.1.1.1:53"; transport = codes "udp" }

abbrev second_endpoint : UpstreamEndpoint
second_endpoint = record { addr = codes "9.9.9.9:53"; transport = codes "udp" }

abbrev no_tracker : Tracker
no_tracker = []

-- The key is "1.1.1.1:53", of which b'1' is the first byte.
fail_times-after_success_example :
    let failed =
      fail_times 2 9
        (codes "1.1.1.1:53")
        (codes "timeout")
        3
        (record_forward_success 5 (codes "1.1.1.1:53") no_tracker) in
    (is_unhealthy failed (codes "1.1.1.1:53") ≡ leb (threshold_or_default 3) 2)
    × ((probe_fail 9 (codes "1.1.1.1:53") (codes "timeout") 3 failed).1
        ≡ (3 == threshold_or_default 3))
fail_times-after_success_example =
    fail_times-after_success 9 b'1' (codes ".1.1.1:53") (codes "timeout") 3 2 5 no_tracker

abbrev failed_tracker : Tracker
failed_tracker =
    (
      health_key first_endpoint,
      record { unhealthy = true; failures = 3; last_probe = 9; last_err = []; last_ok = 0 },
    )
    ∷ []

filter_healthy_upstream_endpoints_lem_example :
    filter_healthy_upstream_endpoints failed_tracker true (first_endpoint ∷ second_endpoint ∷ [])
    ≡ (if any (is_up failed_tracker) (first_endpoint ∷ second_endpoint ∷ [])
        then filter (is_up failed_tracker) (first_endpoint ∷ second_endpoint ∷ [])
        else first_endpoint ∷ second_endpoint ∷ [])
filter_healthy_upstream_endpoints_lem_example =
    filter_healthy_upstream_endpoints_lem failed_tracker true
      (first_endpoint ∷ second_endpoint ∷ [])

-- Resource records that are numbers.
abbrev replied : List ℕ → ParMsg ℕ
replied answer = from_upstream (record {
  endpoint = first_endpoint;
  msg = some (record {
    rcode = 0;
    answer = answer;
    ns = [];
    extra = [];
    authoritative = false;
    authenticated_data = false;
  });
})

abbrev failed_query : ParMsg ℕ
failed_query = from_upstream (record { endpoint = second_endpoint; msg = none })

abbrev messages : List (ParMsg ℕ)
messages = replied (5 ∷ []) ∷ from_cache none ∷ failed_query ∷ from_local [] ∷ []

race-by_priority_example :
    race 2 messages ≡ by_priority [] none (first_success none (upstreams messages))
race-by_priority_example = race-by_priority [] none messages refl refl

abbrev too_few : List (ParMsg ℕ)
too_few = failed_query ∷ from_cache none ∷ from_local [] ∷ []

race-waiting_example : race 2 too_few ≡ waiting
race-waiting_example =
    race-waiting 2 too_few refl refl (unfold first_success accept success_of in refl) (omega arith)

abbrev limiter : Limiter
limiter = record {
  entries = (codes "10.0.0.9", record { count = 1; start = 100 }) ∷ [];
  window = 1000;
  max_per_window = 2;
  max_entries = 1;
}

abbrev query_of : Text → ℕ → Query
query_of ip now = record { ip = ip; now = now }

abbrev queries : List Query
queries =
    query_of (codes "10.0.0.9") 200
    ∷ query_of (codes "10.0.0.8") 300
    ∷ query_of (codes "10.0.0.9") 400
    ∷ query_of (codes "10.0.0.9") 500
    ∷ []

answered_lem_example :
    answered (codes "10.0.0.9") limiter queries
    ≡ min (count_if (λ q. text_eq q.ip (codes "10.0.0.9")) queries) (2 - 1)
answered_lem_example =
    answered_lem (codes "10.0.0.9") limiter (record { count = 1; start = 100 }) queries
      (omega arith) (unfold get text_eq in refl) (unfold text_eq in refl)

abbrev blocked : List Text
blocked = codes "ads.example" ∷ []

is_blocked_lem_example :
    is_blocked blocked (codes "cdn.Ads.example.")
    ≡ any (is_under (normalize_domain (codes "cdn.Ads.example."))) blocked
is_blocked_lem_example = is_blocked_lem blocked (codes "cdn.Ads.example.")
