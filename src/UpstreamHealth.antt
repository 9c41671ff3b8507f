-- ===== src/UpstreamHealth.antt =====
-- data/upstream_health.go: which upstreams are down, by the outcomes of probes and forwards. The
-- Go map is a dictionary; `t == nil` is not modelled, and the locks make each call one step.
pub mod Threshold
pub mod Filtering
use dnsplane.Base.{
  ℕ, ◌+◌, Bool, true, false, ◌&&◌, ◌||◌, not, List, [], ◌∷◌, Option, none, some, is_empty, any,
  filter, leb, ◌==◌, map, if◌then◌else◌,
}
use dnsplane.Text.{Text, text_eq}
use dnsplane.Text.Dict.{get, put}
use dnsplane.Servers.Types.{DnsServer, UpstreamEndpoint, health_key}
use dnsplane.Servers.Endpoint.{server_to_endpoint}

-- The times are 0 where the source has the zero time.
pub record Entry : Type 0 where
  pub unhealthy : Bool
  pub failures : ℕ
  pub last_probe : ℕ
  pub last_err : Text
  pub last_ok : ℕ

abbrev pub new_entry : Entry
new_entry = record { unhealthy = false; failures = 0; last_probe = 0; last_err = []; last_ok = 0 }

abbrev pub Tracker : Type 0
Tracker = List (Text × Entry)

-- ensure(key), without the write
unfoldable pub entry_at : Option Entry → Entry
entry_at none = new_entry
entry_at (some e) = e

unfoldable pub ensure : Text → Tracker → Entry
ensure key t = entry_at (get key t)

-- `e != nil && e.unhealthy`
unfoldable pub is_down : Option Entry → Bool
is_down none = false
is_down (some e) = e.unhealthy

unfoldable pub is_unhealthy : Tracker → Text → Bool
is_unhealthy t key = is_down (get key t)

unfoldable pub filter_addrs : Tracker → Bool → List Text → List Text
filter_addrs t enabled addrs =
    let out = filter (λ a. not (is_unhealthy t a)) addrs in
    if not enabled || is_empty addrs then addrs else if is_empty out then addrs else out

unfoldable pub record_forward_success : ℕ → Text → Tracker → Tracker
record_forward_success now [] t = t
record_forward_success now (c ∷ key) t =
    put (c ∷ key)
      (record (ensure (c ∷ key) t) {
        unhealthy = false;
        failures = 0;
        last_err = [];
        last_ok = now;
      })
      t

-- `if threshold <= 0 { threshold = 3 }`, for a threshold that is not negative
unfoldable pub threshold_or_default : ℕ → ℕ
threshold_or_default n = if n == 0 then 3 else n

unfoldable pub failed_entry : ℕ → Text → ℕ → Entry → Entry
failed_entry now err threshold e = record e {
  failures = e.failures + 1;
  last_probe = now;
  last_err = err;
  unhealthy = e.unhealthy || leb (threshold_or_default threshold) (e.failures + 1);
}

-- The tracker, and whether the upstream has become unhealthy.
unfoldable pub probe_fail : ℕ → Text → Text → ℕ → Tracker → Tracker × Bool
probe_fail now [] err threshold t = (t, false)
probe_fail now (c ∷ key) err threshold t =
    let e = ensure (c ∷ key) t in
    let new = failed_entry now err threshold e in
    (put (c ∷ key) new t, new.unhealthy && not e.unhealthy)

-- The row of Snapshot for a key.
pub record Status : Type 0 where
  pub address_port : Text
  pub unhealthy : Bool
  pub consecutive_failures : ℕ
  pub last_probe_at : ℕ
  pub last_probe_error : Text
  pub last_success_at : ℕ

status_of : Text → Entry → Status
status_of k e = record {
  address_port = k;
  unhealthy = e.unhealthy;
  consecutive_failures = e.failures;
  last_probe_at = e.last_probe;
  last_probe_error = e.last_err;
  last_success_at = e.last_ok;
}

unfoldable pub snapshot : Tracker → List Text → List Status
unfolding status_of
snapshot t keys = map (λ k. status_of k (ensure k t)) keys

-- FilterHealthyUpstreamEndpoints
unfoldable pub filter_healthy_upstream_endpoints :
    Tracker → Bool → List UpstreamEndpoint → List UpstreamEndpoint
filter_healthy_upstream_endpoints t enabled eps =
    let keep = filter_addrs t enabled (map health_key eps) in
    let out = filter (λ ep. any (λ k. text_eq k (health_key ep)) keep) eps in
    if is_empty eps then eps else if is_empty out then eps else out

-- What `if !enabled` resets in the rows.
hide_health : Status → Status
hide_health s = record s { unhealthy = false; consecutive_failures = 0; last_probe_error = [] }

active_keys : List DnsServer → List Text
active_keys rows = map (λ s. health_key (server_to_endpoint s)) (filter (λ s. s.active) rows)

unfoldable pub upstream_health_statuses : Tracker → Bool → List DnsServer → List Status
unfolding hide_health active_keys
upstream_health_statuses t enabled rows =
    let st = snapshot t (active_keys rows) in if enabled then st else map hide_health st

-- ApplyUpstreamProbeResult: the tracker, and whether the warning is given.
unfoldable pub apply_upstream_probe_result :
    ℕ → Bool → ℕ → Text → Bool → Text → Tracker → Tracker × Bool
apply_upstream_probe_result now enabled threshold key ok err t =
    if not enabled
    then (t, false)
    else if ok
    then (record_forward_success now key t, false)
    else probe_fail now key err (threshold_or_default threshold) t
