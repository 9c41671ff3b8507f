-- ===== src/Servers/Fallbacks.antt =====
-- dnsservers/endpoint.go: the health keys of the fallback endpoints that are appended.
use dnsplane.Base.{
  ◌≡◌, refl, inl, inr, Bool, true, false, not, List, [], ◌∷◌, ◌++◌, arith, Bool-cases, Option-cases,
  all, map,
}
use dnsplane.Base.Unique.{has, Distinct}
use dnsplane.Text.{Text, text_eq}
use dnsplane.Records.Keys.{text_eq_flip}
use dnsplane.Servers.Types.{DnsServer, UpstreamEndpoint, health_key}
use dnsplane.Servers.Endpoint.{
  server_to_endpoint, server_fallback_endpoint, endpoint_in_primaries, is_seen, fallbacks_of,
  append_per_server_fallbacks,
}

-- No two endpoints have the same health key.
abbrev pub HealthKeysDistinct : List UpstreamEndpoint → Type 0
HealthKeysDistinct = Distinct text_eq health_key

-- No endpoint's key has been seen.
abbrev pub all_new : List Text → List UpstreamEndpoint → Bool
all_new seen eps = all (λ e. not (is_seen (health_key e) seen)) eps

all_new-tail :
    (k : Text) (seen : List Text) (eps : List UpstreamEndpoint)
    → all_new (k ∷ seen) eps ≡ true
    → (all_new seen eps ≡ true) × (has text_eq health_key k eps ≡ false)
unfolding is_seen
all_new-tail k seen [] h = (refl, refl)
all_new-tail k seen (e ∷ eps) h =
    let (later, fresh) = all_new-tail k seen eps (ground arith) in
    ground (arith, text_eq_flip k (health_key e))

fallbacks_of-new :
    (primaries : List UpstreamEndpoint) (rows : List DnsServer) (seen : List Text)
    → HealthKeysDistinct (fallbacks_of primaries rows seen)
      × (all_new seen (fallbacks_of primaries rows seen) ≡ true)
unfolding fallbacks_of
fallbacks_of-new primaries [] seen = (tt, refl)
fallbacks_of-new primaries (s ∷ rows) seen =
    let skip = fallbacks_of-new primaries rows seen in
    elim (Bool-cases (not (endpoint_in_primaries (server_to_endpoint s) primaries))) [
      | inl out ↦ rw (out, fallbacks_of) skip
      | inr in_ ↦ elim (Option-cases (server_fallback_endpoint s)) [
        | inl lacks ↦ rw (in_, lacks, fallbacks_of) skip
        | inr (fe, there) ↦ elim (Bool-cases (is_seen (health_key fe) seen)) [
          | inl dup ↦ rw (in_, there, dup, fallbacks_of) skip
          | inr new ↦
              let (d, h) = fallbacks_of-new primaries rows (health_key fe ∷ seen) in
              let (later, fresh) = all_new-tail (health_key fe) seen _ h in
              rw (in_, there, new, fallbacks_of) ((fresh, d), ground arith)
        ]
      ]
    ]

-- With at least one primary endpoint, the primaries stay in front and what is appended are
-- endpoints with distinct health keys, none of which is the key of a primary.
append_per_server_fallbacks_lem :
    (p : UpstreamEndpoint) (primaries : List UpstreamEndpoint) (rows : List DnsServer)
    → (extra : List UpstreamEndpoint) × (append_per_server_fallbacks (p ∷ primaries) rows
        ≡ (p ∷ primaries) ++ extra)
      × HealthKeysDistinct extra
      × (all_new (map health_key (p ∷ primaries)) extra ≡ true)
unfolding append_per_server_fallbacks
append_per_server_fallbacks_lem p primaries rows =
    let (d, h) = fallbacks_of-new (p ∷ primaries) rows (map health_key (p ∷ primaries)) in
    (fallbacks_of (p ∷ primaries) rows (map health_key (p ∷ primaries)), refl, d, h)
