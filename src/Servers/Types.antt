-- ===== src/Servers/Types.antt =====
-- The rows of dnsservers/dnsservers.go and the endpoints of dnsservers/endpoint.go. The times
-- last_used and last_success, which nothing here reads, are left out.
use dnsplane.Base.{Bool, false, List, []}
use dnsplane.Text.{Text, trim_space}

pub record DnsServer : Type 0 where
  pub address : Text
  pub port : Text
  pub transport : Text
  pub doh_url : Text
  pub active : Bool
  pub local_resolver : Bool
  pub ad_blocker : Bool
  pub domain_whitelist : List Text
  pub fallback_address : Text
  pub fallback_port : Text
  pub fallback_transport : Text
  pub fallback_doh_url : Text

-- DNSServer{}
abbrev pub no_server : DnsServer
no_server = record {
  address = [];
  port = [];
  transport = [];
  doh_url = [];
  active = false;
  local_resolver = false;
  ad_blocker = false;
  domain_whitelist = [];
  fallback_address = [];
  fallback_port = [];
  fallback_transport = [];
  fallback_doh_url = [];
}

pub record UpstreamEndpoint : Type 0 where
  pub addr : Text
  pub transport : Text

unfoldable pub health_key : UpstreamEndpoint → Text
health_key e = trim_space e.addr
