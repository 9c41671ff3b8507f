-- ===== src/Servers/Whitelist.antt =====
-- normalizeQueryNameForWhitelist, ServerMatchesQuery and GetUpstreamEndpointsForQuery of
-- dnsservers/dnsservers.go.
use dnsplane.Base.{Bool, ◌&&◌, ◌||◌, not, List, [], ◌∷◌, is_empty, any, filter, map, if◌then◌else◌}
use dnsplane.Text.{Text, dot, text_eq, trim_space, trim_dots, to_lower, has_suffix}
use dnsplane.Servers.Types.{DnsServer, UpstreamEndpoint}
use dnsplane.Servers.Endpoint.{server_to_endpoint}

-- The loop that strips one dot after the other leaves what TrimRight leaves.
unfoldable pub normalize_query_name : Text → Text
normalize_query_name name = to_lower (trim_dots (trim_space name))

unfoldable pub normalize_entry : Text → Text
normalize_entry entry = trim_dots (to_lower (trim_space entry))

-- One entry of the whitelist against the normalized name.
unfoldable pub entry_matches : Text → Text → Bool
entry_matches q entry =
    let e = normalize_entry entry in not (is_empty e) && (text_eq q e || has_suffix q (dot ∷ e))

unfoldable pub server_matches_query : DnsServer → Text → Bool
server_matches_query s name =
    let q = normalize_query_name name in
    not (is_empty q) && any (entry_matches q) s.domain_whitelist

-- `activeOnly && !s.Active` does not hold.
unfoldable pub is_eligible : Bool → DnsServer → Bool
is_eligible active_only s = not active_only || s.active

unfoldable pub whitelisted_servers : List DnsServer → Text → Bool → List DnsServer
whitelisted_servers rows name active_only =
    filter (λ s. is_eligible active_only s && server_matches_query s name) rows

unfoldable pub global_servers : List DnsServer → Bool → List DnsServer
global_servers rows active_only =
    filter (λ s. is_eligible active_only s && is_empty s.domain_whitelist) rows

-- The rows that GetUpstreamEndpointsForQuery makes endpoints of.
unfoldable pub servers_for_query : List DnsServer → Text → Bool → List DnsServer
servers_for_query rows name active_only =
    let listed = whitelisted_servers rows name active_only in
    if not (is_empty listed)
    then listed
    else if any (λ s. server_matches_query s name) rows
    then []
    else global_servers rows active_only

unfoldable pub get_upstream_endpoints_for_query :
    List DnsServer → Text → Bool → List UpstreamEndpoint
get_upstream_endpoints_for_query rows name active_only =
    map server_to_endpoint (servers_for_query rows name active_only)
