-- ===== src/Examples/Serving.antt =====
-- Concrete requests: dnsserve/ and resolver/resolver.go.
use dnsplane.Base.{
  ℕ, suc, ◌+◌, ◌≡◌, refl, ap, arith, true, false, List, [], ◌∷◌, Option, none, some, is_empty,
  length, map,
}
use dnsplane.Base.Int.{pos}
use dnsplane.Text.{
  Text, codes, text_eq, trim_space, trim_dot, to_lower, to_upper, decimal, has_suffix,
}
use dnsplane.Library.{sample_rrs, SampleRr}
use dnsplane.Adblock.{is_blocked, holds, normalize_domain}
use dnsplane.Records.Types.{DnsRecord, no_record}
use dnsplane.Servers.Types.{UpstreamEndpoint}
use dnsplane.Resolver.Race.{UpstreamResult}
use dnsplane.Resolver.Caching.{Settings, Question}
use dnsplane.Resolver.Resolve.{Store, Env, is_address_question, check_blocked, handle_question}
use dnsplane.Resolver.Ends.{
  IsFair, locals-map, caches-map, length-upstreams-map, handle_question-asks_none,
}
use dnsplane.Serve.{Request, ServeLibrary, reply_with}
use dnsplane.Serve
use dnsplane.Serve.Transfer.{
  axfr_records_for_zone, transfer, try_serve_axfr, parse_cidrs, client_ip_allowed, find_soa,
  in_zone, is_soa, dns_record_to_rr,
}
use dnsplane.Dnssec.Validate.{collect, equal_fold}
use dnsplane.Serve.Allowed.{IsEntitled, transfer-IsEntitled}
use dnsplane.Serve.Framed.{IsFramed, axfr_records_for_zone-IsFramed}
use dnsplane.Serve.Handle.{Server, Served, serve_dns, has_any_question}
use dnsplane.Serve.Refused.{IsRefusal, serve_dns-IsRefusal, serve_dns-replies}
use dnsplane.Serve.Amplified.{IsBounded, serve_dns-IsBounded}
use dnsplane.Examples.Signed.{sample_dnssec}

abbrev settings : Settings
settings = record {
  cache_records = true;
  min_cache_ttl_seconds = pos 0;
  health_checks_enabled = true;
  fallback_server_ip = codes "1.1.1.1";
  fallback_server_port = codes "53";
  fallback_server_transport = codes "udp";
  auto_build_ptr_from_a = true;
  dnssec = record { validate = false; strict = false };
}

abbrev store : Store
store = record {
  resolver_data = record {
    local_records_enabled = true;
    cache_enabled = true;
    stale_while_revalidate = false;
    dns_records = [];
    cache_records = [];
    dns_record_idx = [];
    cache_record_idx = [];
  };
  own_settings = settings;
  servers = [];
  tracker = [];
  block_list = some (codes "ads.example" ∷ []);
  cache_hits = 0;
  total_blocks = 0;
  queries_answered = 0;
}

abbrev lost : UpstreamEndpoint → UpstreamResult SampleRr
lost ep = record { endpoint = ep; msg = none }

-- Every upstream gives an error.
abbrev world : Env sample_rrs sample_dnssec
world = record {
  now = 1000;
  seconds = 1;
  add_clocks = λ i. record { at_expiry = 100; at_timestamp = 101; at_query = 102 };
  rrset_clock = record { at_expiry = 100; at_timestamp = 101; at_query = 102 };
  replies = λ eps. map lost eps;
  arrange = λ l c us. l ∷ c ∷ us;
  wants_do = false;
  signer = none;
}

length-lost : (eps : List UpstreamEndpoint) → length (map lost eps) ≡ length eps
length-lost [] = refl
length-lost (ep ∷ eps) = ap (λ (n : ℕ). suc n) (length-lost eps)

world-IsFair : IsFair sample_rrs sample_dnssec world
world-IsFair = record {
  replies_all = length-lost;
  one_local =
      λ l c us. ap (λ (ls : List (List SampleRr)). l ∷ ls) (locals-map sample_rrs sample_dnssec us);
  one_cache = λ l c us.
      ap (λ (cs : List (Option SampleRr)). c ∷ cs) (caches-map sample_rrs sample_dnssec us);
  all_upstreams = λ l c us. length-upstreams-map sample_rrs sample_dnssec us;
}

abbrev advert : Question
advert = record { name = codes "ads.example."; type = codes "A" }

advert-is_blocked : check_blocked (some (codes "ads.example" ∷ [])) advert ≡ true
unfolding is_blocked holds text_eq normalize_domain trim_dot to_lower trim_space
advert-is_blocked = unfold check_blocked in refl

advert-is_address : is_address_question advert ≡ true
unfolding text_eq
advert-is_address = unfold is_address_question in refl

handle_question-asks_none_example :
    (handle_question sample_rrs sample_dnssec world advert store (reply_with 0)).asked ≡ []
handle_question-asks_none_example =
    handle_question-asks_none sample_rrs sample_dnssec world advert store (reply_with 0)
      advert-is_address advert-is_blocked

-- A network is one address, a zone has the names that end like it, and messages have fixed lengths.
abbrev sample_net : ServeLibrary sample_rrs
sample_net = record {
  Net = Text;
  Addr = Text;
  parse_ip = λ t. some t;
  parse_cidr = λ t. some t;
  net_contains = λ n t. text_eq n t;
  canonical_name = λ t. t;
  is_sub_domain = λ zone name. has_suffix name zone;
  edns_size = λ rr. none;
  set_edns_size = λ rr size. rr;
  request_length = λ req. some 40;
  reply_length = λ req m. some (50 + length m.answer);
}

abbrev serve_settings : Serve.Settings
serve_settings = record {
  dns_refuse_any = true;
  axfr_enabled = true;
  axfr_allowed_networks = codes "10.0.0.9" ∷ [];
  dns_max_edns_udp_payload = 1232;
  dns_amplification_max_ratio = pos 2;
  dns_response_limit_mode = codes "rrl";
}

abbrev soa_record : DnsRecord
soa_record = record no_record { name = codes "org."; type = codes "SOA"; value = codes "ns.org." }

abbrev ns_record : DnsRecord
ns_record = record no_record { name = codes "a.org."; type = codes "A"; value = codes "10.0.0.1" }

abbrev zone : List DnsRecord
zone = ns_record ∷ soa_record ∷ []

abbrev zone_question : Question
zone_question = record { name = codes "org."; type = codes "AXFR" }

zone-given :
    is_empty
      (transfer sample_rrs sample_net serve_settings
        (codes "10.0.0.9")
        (codes "tcp")
        zone
        zone_question).answer
    ≡ false
unfolding text_eq trim_space parse_cidrs client_ip_allowed axfr_records_for_zone find_soa in_zone
    has_suffix is_soa equal_fold to_lower dns_record_to_rr
zone-given = unfold transfer in refl

transfer-IsEntitled_example :
    IsEntitled sample_rrs sample_net serve_settings (codes "10.0.0.9") (codes "tcp")
transfer-IsEntitled_example =
    transfer-IsEntitled sample_rrs sample_net serve_settings (codes "10.0.0.9") (codes "tcp") zone
      zone_question zone-given

abbrev soa_rr : SampleRr
soa_rr = record { name = codes "org. 3600 IN SOA ns.org."; type = codes "A"; ttl = 60 }

abbrev a_rr : SampleRr
a_rr = record { name = codes "a.org. 3600 IN A 10.0.0.1"; type = codes "A"; ttl = 60 }

zone-records :
    axfr_records_for_zone sample_rrs sample_net zone (codes "org.")
    ≡ some (soa_rr ∷ a_rr ∷ soa_rr ∷ [])
unfolding find_soa in_zone has_suffix is_soa equal_fold to_lower trim_space dns_record_to_rr decimal
    collect to_upper
zone-records = unfold axfr_records_for_zone in refl

axfr_records_for_zone-IsFramed_example :
    IsFramed sample_rrs sample_net zone (codes "org.") (soa_rr ∷ a_rr ∷ soa_rr ∷ [])
axfr_records_for_zone-IsFramed_example =
    axfr_records_for_zone-IsFramed sample_rrs sample_net zone (codes "org.")
      (soa_rr ∷ a_rr ∷ soa_rr ∷ []) zone-records

abbrev server : Server
server = record { store = store; query_limiter = none; response_limiter = none; drops = [] }

abbrev request_of : Text → Request
request_of type = record {
  opcode = 0;
  questions = record { name = codes "www.example.com."; type = type } ∷ [];
}

abbrev no_port : Text → Option Text
no_port t = none

abbrev worlds : ℕ → Env sample_rrs sample_dnssec
worlds i = world

serve_dns-IsRefusal_example :
    (s : Served sample_rrs sample_dnssec sample_net) × (serve_dns sample_rrs sample_dnssec
        sample_net serve_settings no_port worlds 5 6 none zone
        (codes "10.0.0.9")
        (codes "udp")
        (request_of (codes "ANY"))
        server
      ≡ some s)
    × IsRefusal sample_rrs sample_dnssec sample_net server s
unfolding has_any_question text_eq
serve_dns-IsRefusal_example =
    serve_dns-IsRefusal sample_rrs sample_dnssec sample_net serve_settings no_port worlds 5 6 none
      zone (codes "10.0.0.9") (codes "udp") (request_of (codes "ANY")) server refl

replied :
    (s : Served sample_rrs sample_dnssec sample_net) × (serve_dns sample_rrs sample_dnssec
        sample_net serve_settings no_port worlds 5 6 none zone
        (codes "10.0.0.9")
        (codes "udp")
        (request_of (codes "A"))
        server
      ≡ some s)
replied =
    serve_dns-replies sample_rrs sample_dnssec sample_net serve_settings no_port worlds 5 6 none
      zone (codes "10.0.0.9") (codes "udp") (request_of (codes "A")) server (λ i. world-IsFair)

serve_dns-replies_example :
    (s : Served sample_rrs sample_dnssec sample_net) × (serve_dns sample_rrs sample_dnssec
        sample_net serve_settings no_port worlds 5 6 none zone
        (codes "10.0.0.9")
        (codes "udp")
        (request_of (codes "A"))
        server
      ≡ some s)
serve_dns-replies_example =
    serve_dns-replies sample_rrs sample_dnssec sample_net serve_settings no_port worlds 5 6 none
      zone (codes "10.0.0.9") (codes "udp") (request_of (codes "A")) server (λ i. world-IsFair)

not_a_transfer :
    try_serve_axfr sample_rrs sample_net serve_settings
      (codes "10.0.0.9")
      (codes "udp")
      zone
      (request_of (codes "A"))
    ≡ none
unfolding text_eq
not_a_transfer = unfold try_serve_axfr in refl

serve_dns-IsBounded_example :
    IsBounded sample_rrs sample_dnssec sample_net 2 (request_of (codes "A")) replied.0.response
serve_dns-IsBounded_example =
    serve_dns-IsBounded sample_rrs sample_dnssec sample_net serve_settings no_port worlds 5 6 none
      zone (codes "10.0.0.9") (codes "udp") (request_of (codes "A")) server replied.0 2
      (omega arith) refl not_a_transfer replied.1
