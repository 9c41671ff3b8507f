-- ===== src/Servers/Endpoint.antt =====
-- dnsservers/endpoint.go: how an upstream is reached.
use dnsplane.Base.{
  Bool, ◌&&◌, ◌||◌, not, List, [], ◌∷◌, ◌++◌, Option, none, some, is_empty, any, ◌==◌, map,
  if◌then◌else◌,
}
use dnsplane.Text.{Text, codes, text_eq, trim_space, to_lower}
use dnsplane.Servers.Types.{DnsServer, no_server, UpstreamEndpoint, health_key}

-- `if s == "" { s = d }`
unfoldable pub or_default : Text → Text → Text
or_default [] d = d
or_default (c ∷ s) d = c ∷ s

-- net.JoinHostPort: an address with a colon is put in brackets.
unfoldable pub join_host_port : Text → Text → Text
join_host_port host port =
    if any (λ c. c == b':') host then b'[' ∷ (host ++ b']' ∷ b':' ∷ port) else host ++ b':' ∷ port

-- The text of UpstreamEndpoint.String.
unfoldable pub show_endpoint : UpstreamEndpoint → Text
unfolding or_default
show_endpoint e =
    let a = trim_space e.addr in
    let t = or_default (to_lower (trim_space e.transport)) (codes "udp") in
    if text_eq t (codes "doh") then a else a ++ codes " [" ++ t ++ codes "]"

unfoldable pub clean_transport : Text → Text
clean_transport t = or_default (to_lower (trim_space t)) (codes "udp")

unfoldable pub server_to_endpoint : DnsServer → UpstreamEndpoint
server_to_endpoint s =
    let t = clean_transport s.transport in
    let host = trim_space s.address in
    let port = trim_space s.port in
    if text_eq t (codes "doh")
    then record {
      addr = or_default (trim_space s.doh_url) (trim_space s.address);
      transport = codes "doh";
    }
    else if text_eq t (codes "dot")
    then record {
      addr = join_host_port host (or_default port (codes "853"));
      transport = codes "dot";
    }
    else record {
      addr = join_host_port host (or_default port (codes "53"));
      transport = if text_eq t (codes "tcp") || text_eq t (codes "udp") then t else codes "udp";
    }

unfoldable pub server_fallback_endpoint : DnsServer → Option UpstreamEndpoint
server_fallback_endpoint s =
    let addr = trim_space s.fallback_address in
    let url = trim_space s.fallback_doh_url in
    if is_empty addr && is_empty url
    then none
    else some (
        server_to_endpoint (record no_server {
          address = addr;
          port = or_default (trim_space s.fallback_port) (codes "53");
          transport =
              or_default (to_lower (trim_space s.fallback_transport)) (clean_transport s.transport);
          doh_url = url;
        }))

-- strings.EqualFold of ASCII texts
abbrev equal_fold : Text → Text → Bool
equal_fold s t = text_eq (to_lower s) (to_lower t)

unfoldable pub endpoint_in_primaries : UpstreamEndpoint → List UpstreamEndpoint → Bool
endpoint_in_primaries ep primaries =
    any
      (λ p. text_eq p.addr ep.addr && equal_fold (trim_space p.transport) (trim_space ep.transport))
      primaries

-- The key is in `seen`.
unfoldable pub is_seen : Text → List Text → Bool
is_seen k seen = any (λ s. text_eq s k) seen

-- The loop of AppendPerServerFallbacks: what is appended, given the keys seen before.
unfoldable pub fallbacks_of :
    List UpstreamEndpoint → List DnsServer → List Text → List UpstreamEndpoint
fallbacks_of primaries [] seen = []
fallbacks_of primaries (s ∷ rows) seen =
    let skip = fallbacks_of primaries rows seen in
    if not (endpoint_in_primaries (server_to_endpoint s) primaries)
    then skip
    else elim (server_fallback_endpoint s) [
      | none ↦ skip
      | some fe ↦
          let take = fe ∷ fallbacks_of primaries rows (health_key fe ∷ seen) in
          if is_seen (health_key fe) seen then skip else take
    ]

unfoldable pub append_per_server_fallbacks :
    List UpstreamEndpoint → List DnsServer → List UpstreamEndpoint
append_per_server_fallbacks [] rows = []
append_per_server_fallbacks (p ∷ primaries) rows =
    (p ∷ primaries) ++ fallbacks_of (p ∷ primaries) rows (map health_key (p ∷ primaries))

unfoldable pub fallback_endpoint : Text → Text → Text → UpstreamEndpoint
fallback_endpoint fallback_ip fallback_port transport =
    let t = clean_transport transport in
    let ip = trim_space fallback_ip in
    let port = or_default (trim_space fallback_port) (codes "53") in
    if text_eq t (codes "doh")
    then record { addr = join_host_port ip port; transport = codes "udp" }
    else if text_eq t (codes "dot")
    then record {
      addr = join_host_port ip (if text_eq port (codes "53") then codes "853" else port);
      transport = codes "dot";
    }
    else record {
      addr = join_host_port ip port;
      transport = if text_eq t (codes "tcp") then t else codes "udp";
    }
