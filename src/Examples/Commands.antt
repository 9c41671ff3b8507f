-- ===== src/Examples/Commands.antt =====
-- Concrete commands, clients and resolutions: dnsservers/dnsservers.go, ratelimit/ and
-- data/dashboard_live.go.
use dnsplane.Base.{
  ℕ, ◌+◌, ◌-◌, ◌*◌, ◌≤◌, ◌≡◌, ◌≢◌, refl, arith, true, List, [], ◌∷◌, none, some, min, take, reverse,
}
use dnsplane.Base.Int.{pos}
use dnsplane.Text.{Text, codes, text_eq}
use dnsplane.Text.Dict.{get}
use dnsplane.Library.{sample_library}
use dnsplane.Records.Types.{invalid_args}
use dnsplane.Cliutil.{is_help_request}
use dnsplane.Servers.Types.{DnsServer, no_server}
use dnsplane.Servers.Commands.{remove}
use dnsplane.Servers.Rows.{
  Command, command_add, command_remove, command_update, apply, refused-apply,
}
use dnsplane.RateLimit.{PerIp, Bucket, token}
use dnsplane.RateLimit.Bound
use dnsplane.RateLimit.Bound.{allowed, allowed-le_burst}
use dnsplane.Dashboard.{
  Resolution, Live, get_dashboard_log_newest_first, dashboard_log_cap, limit_of,
}
use dnsplane.Dashboard.Newest.{newest, record_all, get_dashboard_log_newest_first_lem}

abbrev one_row : List DnsServer
one_row = record no_server { address = codes "1.1.1.1"; port = codes "53"; active = true } ∷ []

abbrev remove_unknown : Command sample_library
remove_unknown = command_remove (codes "9.9.9.9" ∷ codes "53" ∷ [])

remove_unknown-error : (apply sample_library remove_unknown one_row).error ≡ some invalid_args
unfolding remove is_help_request
remove_unknown-error = unfold apply in refl

remove_unknown-refused : (apply sample_library remove_unknown one_row).error ≢ none
remove_unknown-refused = λ h. cc remove_unknown-error

refused-apply_example : (apply sample_library remove_unknown one_row).records ≡ one_row
refused-apply_example = refused-apply sample_library remove_unknown one_row remove_unknown-refused

abbrev commands : List (Command sample_library)
commands =
    command_add (codes "1.1.1.1" ∷ codes "53" ∷ [])
    ∷ command_update (codes "1.1.1.1" ∷ codes "active:false" ∷ [])
    ∷ []

-- One token is left at 1000, and one request in a second comes in.
abbrev client : Text
client = codes "10.0.0.9"

abbrev bucket : Bucket
bucket = record { tokens = token; last = 1000 }

abbrev limiter : PerIp
limiter = record { buckets = (client, bucket) ∷ []; rps = 1; burst = 2; max_ips = 10000 }

abbrev at_time : ℕ → Bound.Request
at_time now = record { key = client; now = now }

allowed-le_burst_example :
    allowed client limiter (at_time 1500 ∷ at_time 2000 ∷ []) * token
    ≤ 2 * token + (3000 - 1200) * 1
allowed-le_burst_example =
    allowed-le_burst client limiter (at_time 1500 ∷ at_time 2000 ∷ []) bucket 1200 3000
      (omega arith) (unfold get text_eq in refl) (omega arith)
      (omega arith, (omega arith, omega arith))

abbrev resolved : ℕ → Resolution
resolved at = record {
  at = at;
  client_ip = client;
  qname = codes "example.com";
  qtype = codes "A";
  outcome = codes "cache";
  upstream = [];
  rr = [];
  duration = 1;
}

abbrev live : Live
live = record { log_cap = 2; log = resolved 5 ∷ []; minute = []; second = [] }

abbrev later : List (ℕ × Resolution)
later = (10, resolved 6) ∷ (11, resolved 0) ∷ []

live-short : 1 ≤ dashboard_log_cap live
unfolding dashboard_log_cap
live-short = omega arith

get_dashboard_log_newest_first_lem_example :
    get_dashboard_log_newest_first (pos 5) (record_all later live)
    ≡ take (min (limit_of (pos 5)) (dashboard_log_cap live)) (newest later (reverse live.log))
get_dashboard_log_newest_first_lem_example =
    get_dashboard_log_newest_first_lem (pos 5) later live live-short
