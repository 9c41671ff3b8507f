-- ===== src/Examples/Caching.antt =====
-- Concrete answers that are cached whole: resolver/resolver.go.
use dnsplane.Base.{false, ◌≡◌, refl, true, List, [], ◌∷◌, some}
use dnsplane.Base.Int.{pos}
use dnsplane.Text.{codes, is_space}
use dnsplane.Library.{sample_rrs, SampleRr}
use dnsplane.Cache.{CacheRecord, Clock}
use dnsplane.LookupIndex.RrSet.{build_rrset_cache_value}
use dnsplane.LookupIndex.RrSet.{parse_rrset_cache_value}
use dnsplane.LookupIndex.RoundTrip.{IsLine, parse_rrset_cache_value-build}
use dnsplane.Resolver.Caching.{Settings, Question, rrset_entry}

abbrev settings : Settings
settings = record {
  cache_records = true;
  min_cache_ttl_seconds = pos 0;
  health_checks_enabled = true;
  fallback_server_ip = codes "1.1.1.1";
  fallback_server_port = codes "53";
  fallback_server_transport = codes "udp";
  auto_build_ptr_from_a = true;
  dnssec = record { validate = false; strict = false };
}

abbrev moments : Clock
moments = record { at_expiry = 100; at_timestamp = 101; at_query = 102 }

abbrev asked : Question
asked = record { name = codes "www.example.com."; type = codes "A" }

abbrev chain : List SampleRr
chain =
    record { name = codes "www.example.com."; type = codes "CNAME"; ttl = 300 }
    ∷ record { name = codes "example.net."; type = codes "A"; ttl = 60 }
    ∷ []

-- The entry of the same question with another answer.
abbrev before : List CacheRecord
before = rrset_entry sample_rrs settings moments asked [] ∷ []

abbrev plain : SampleRr
plain = record { name = codes "example.com"; type = codes "A"; ttl = 60 }

plain-IsLine : IsLine sample_rrs plain
unfolding is_space
plain-IsLine = record {
  holds_byte = refl;
  starts = refl;
  ends = refl;
  one_line = refl;
  parses = refl;
}

parse_rrset_cache_value-build_example :
    parse_rrset_cache_value sample_rrs (build_rrset_cache_value sample_rrs (plain ∷ plain ∷ []))
    ≡ some (plain ∷ plain ∷ [])
parse_rrset_cache_value-build_example =
    parse_rrset_cache_value-build sample_rrs plain (plain ∷ []) (plain-IsLine, (plain-IsLine, tt))
