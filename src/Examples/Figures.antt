-- ===== src/Examples/Figures.antt =====
-- Concrete statistics: fullstats/fullstats.go and data/resolver_perf.go.
use dnsplane.Base.{◌+◌, ◌%◌, ◌^◌, ◌≡◌, true, List, [], ◌∷◌, Option, none, some, arith}
use dnsplane.Base.Int.{pos}
use dnsplane.Text.{Text, codes, text_eq}
use dnsplane.Text.Dict.{get}
use dnsplane.Fullstats.{RecordReq, RequestStats, new, get_request_stats, get_session_requests}
use dnsplane.Fullstats.Counts.{Recorded, run, row_count, row_source, recorded, run-recorded}
use dnsplane.Fullstats.Sums.{
  IsSound, IsTallied, Step, enqueue, worked, cleared, steps, steps-IsSound,
}
use dnsplane.Perf.{
  Perf, Resolve, perf_outcome_cache, perf_outcome_upstream, zeros, reset_resolver_perf,
  get_resolver_perf_report,
}
use dnsplane.Perf.Report.{IsBalanced, report-IsBalanced}
use dnsplane.Perf.Consistent.{run_calls}

abbrev request : RecordReq
request = record {
  key = codes "a.com:A";
  requester_ip = codes "10.0.0.1";
  record_type = codes "A";
  source = codes "cache";
}

abbrev requests : List (Text × RequestStats)
requests =
    (
      codes "a.com:A",
      record { first_seen = 1; last_seen = 2; count = 5; source_count = (codes "local", 5) ∷ [] },
    )
    ∷ []

abbrev taken : List Recorded
taken =
    record { committed = true; now = 4; req = request }
    ∷ record { committed = true; now = 3; req = request }
    ∷ []

run-recorded_example :
    let after = run taken (new requests []) in
    (row_count (get_request_stats (codes "a.com:A") after)
      ≡ (row_count (get (codes "a.com:A") requests) + recorded (codes "a.com:A") (λ r. true) taken)
        % 2 ^ 64)
    × (row_count (get (codes "a.com:A") (get_session_requests after))
        ≡ recorded (codes "a.com:A") (λ r. true) taken % 2 ^ 64)
    × ((s : Text)
        → row_source s (get (codes "a.com:A") (get_session_requests after))
          ≡ recorded (codes "a.com:A") (λ r. text_eq r.source s) taken % 2 ^ 64)
unfolding row_count get text_eq
run-recorded_example = run-recorded (codes "a.com:A") taken requests [] (omega arith)

abbrev work_steps : List Step
work_steps =
    enqueue (codes "a.com:A") (codes "10.0.0.1") (codes "A") (codes " Cache ")
    ∷ worked true 7
    ∷ cleared true
    ∷ []

steps-IsSound_example : IsSound (steps work_steps (new [] []))
unfolding IsSound new IsTallied get
steps-IsSound_example = steps-IsSound work_steps (new [] []) (λ k. tt, λ k. tt, omega arith)

abbrev counters : Perf
counters = record {
  a_total = 0;
  outcome_local = 0;
  outcome_cache = 0;
  outcome_upstream = 0;
  outcome_none = 0;
  sum_total_ns = 0;
  sum_prep_ns = 0;
  sum_upstream_wait_ns = 0;
  sum_max_upstream_ns = 0;
  max_total_ns = 0;
  hist_total = zeros;
  hist_upstream = zeros;
  hist_local = zeros;
  hist_cache = zeros;
  hist_none = zeros;
  upstream_count_sum = 0;
  first_record = 0;
  max_total_local_ns = 0;
  max_total_cache_ns = 0;
  max_total_none_ns = 0;
  sum_total_local_ns = 0;
  sum_total_cache_ns = 0;
  sum_total_none_ns = 0;
  qt = [];
}

abbrev cached : Resolve
cached = record {
  now = 9;
  outcome = perf_outcome_cache;
  total_ns = 3000000;
  prep_ns = 1000;
  max_upstream_ns = 0;
  upstream_wait_ns = 0;
  upstream_servers = pos 0;
  qtype = codes "A";
}

abbrev calls : List (Option Resolve)
calls = some cached ∷ none ∷ some (record cached { outcome = perf_outcome_upstream }) ∷ []

report-IsBalanced_example :
    IsBalanced (get_resolver_perf_report (run_calls calls (reset_resolver_perf counters)))
report-IsBalanced_example = report-IsBalanced counters calls
