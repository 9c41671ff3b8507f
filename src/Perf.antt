-- ===== src/Perf.antt =====
-- data/resolver_perf.go: the counters of the resolutions, per outcome and per type of question,
-- with their histograms. The atomic counters are fields, and the calls run one after the other; a
-- uint64 wraps. The averages, which are floating point numbers, and the texts of the report are not
-- modelled.
pub mod Consistent
pub mod Report
pub mod Buckets
use dnsplane.Base.{
  ℕ, suc, ◌+◌, ◌/◌, ◌%◌, ◌^◌, ◌==◌, max, Bool, true, false, List, [], ◌∷◌, Option, none, some,
  get_elem?, set, is_empty, ltb, if◌then◌else◌,
}
use dnsplane.Base.Int.{ℤ}
use dnsplane.Text.{Text, codes}
use dnsplane.Text.Dict.{get, put}
use dnsplane.Safecast.{int_to_uint64}

pub data Outcome : Type 0 where
  perf_outcome_local perf_outcome_cache perf_outcome_upstream perf_outcome_none : Outcome

pub record PerfQtStats : Type 0 where
  pub total : ℕ
  pub sum_total_ns : ℕ
  pub out_local : ℕ
  pub out_cache : ℕ
  pub out_upstream : ℕ
  pub out_none : ℕ
  pub hist : List ℕ

pub record Perf : Type 0 where
  pub a_total : ℕ
  pub outcome_local : ℕ
  pub outcome_cache : ℕ
  pub outcome_upstream : ℕ
  pub outcome_none : ℕ
  pub sum_total_ns : ℕ
  pub sum_prep_ns : ℕ
  pub sum_upstream_wait_ns : ℕ
  pub sum_max_upstream_ns : ℕ
  pub max_total_ns : ℕ
  pub hist_total : List ℕ
  pub hist_upstream : List ℕ
  pub hist_local : List ℕ
  pub hist_cache : List ℕ
  pub hist_none : List ℕ
  pub upstream_count_sum : ℕ
  pub first_record : ℕ
  pub max_total_local_ns : ℕ
  pub max_total_cache_ns : ℕ
  pub max_total_none_ns : ℕ
  pub sum_total_local_ns : ℕ
  pub sum_total_cache_ns : ℕ
  pub sum_total_none_ns : ℕ
  pub qt : List (Text × PerfQtStats)

abbrev pub zeros : List ℕ
zeros = 0 ∷ 0 ∷ 0 ∷ 0 ∷ 0 ∷ 0 ∷ 0 ∷ 0 ∷ []

unfoldable pub perf_bucket_index : ℕ → ℕ
perf_bucket_index total_ns =
    let ms = total_ns / 1000000 in
    if ltb ms 1
    then 0
    else if ltb ms 2
    then 1
    else if ltb ms 4
    then 2
    else if ltb ms 8
    then 3
    else if ltb ms 16
    then 4
    else if ltb ms 32
    then 5
    else if ltb ms 64
    then 6
    else 7

-- `x.Add(n)`
unfoldable pub add : ℕ → ℕ → ℕ
add n x = (x + n) % 2 ^ 64

-- `h[b].Add(1)`
unfoldable pub add_at : ℕ → List ℕ → List ℕ
unfolding add
add_at b h = elim (get_elem? h b) [ none ↦ h | some n ↦ set h b (add 1 n) ]

-- `&perfQTStats{}`
unfoldable pub new_qt : PerfQtStats
new_qt = record {
  total = 0;
  sum_total_ns = 0;
  out_local = 0;
  out_cache = 0;
  out_upstream = 0;
  out_none = 0;
  hist = zeros;
}

unfoldable pub count_qt_outcome : Outcome → PerfQtStats → PerfQtStats
count_qt_outcome perf_outcome_local q = record q { out_local = add 1 q.out_local }
count_qt_outcome perf_outcome_cache q = record q { out_cache = add 1 q.out_cache }
count_qt_outcome perf_outcome_upstream q = record q { out_upstream = add 1 q.out_upstream }
count_qt_outcome perf_outcome_none q = record q { out_none = add 1 q.out_none }

unfoldable pub count_qt : Outcome → ℕ → PerfQtStats → PerfQtStats
count_qt outcome total_ns q = count_qt_outcome outcome (record q {
  total = add 1 q.total;
  sum_total_ns = add total_ns q.sum_total_ns;
  hist = add_at (perf_bucket_index total_ns) q.hist;
})

-- LoadOrStore
unfoldable pub qt_or_new : Text → List (Text × PerfQtStats) → PerfQtStats
qt_or_new qtype m = elim (get qtype m) [ none ↦ new_qt | some q ↦ q ]

unfoldable pub count_type : Text → Outcome → ℕ → Perf → Perf
count_type qtype outcome total_ns p =
    if is_empty qtype
    then p
    else record p { qt = put qtype (count_qt outcome total_ns (qt_or_new qtype p.qt)) p.qt }

-- The arguments of RecordResolverAResolve, and the time of the call.
pub record Resolve : Type 0 where
  pub now : ℕ
  pub outcome : Outcome
  pub total_ns : ℕ
  pub prep_ns : ℕ
  pub max_upstream_ns : ℕ
  pub upstream_wait_ns : ℕ
  pub upstream_servers : ℤ
  pub qtype : Text

-- The two switches on the outcome.
unfoldable pub count_outcome : Outcome → Resolve → Perf → Perf
count_outcome perf_outcome_local r p = record p {
  outcome_local = add 1 p.outcome_local;
  hist_local = add_at (perf_bucket_index r.total_ns) p.hist_local;
  sum_total_local_ns = add r.total_ns p.sum_total_local_ns;
  max_total_local_ns = max r.total_ns p.max_total_local_ns;
}
count_outcome perf_outcome_cache r p = record p {
  outcome_cache = add 1 p.outcome_cache;
  hist_cache = add_at (perf_bucket_index r.total_ns) p.hist_cache;
  sum_total_cache_ns = add r.total_ns p.sum_total_cache_ns;
  max_total_cache_ns = max r.total_ns p.max_total_cache_ns;
}
count_outcome perf_outcome_upstream r p = record p {
  outcome_upstream = add 1 p.outcome_upstream;
  sum_max_upstream_ns = add r.max_upstream_ns p.sum_max_upstream_ns;
  sum_upstream_wait_ns = add r.upstream_wait_ns p.sum_upstream_wait_ns;
  upstream_count_sum = add (int_to_uint64 r.upstream_servers) p.upstream_count_sum;
  hist_upstream = add_at (perf_bucket_index r.total_ns) p.hist_upstream;
}
count_outcome perf_outcome_none r p = record p {
  outcome_none = add 1 p.outcome_none;
  hist_none = add_at (perf_bucket_index r.total_ns) p.hist_none;
  sum_total_none_ns = add r.total_ns p.sum_total_none_ns;
  max_total_none_ns = max r.total_ns p.max_total_none_ns;
}

unfoldable pub count_total : Resolve → Perf → Perf
count_total r p = record p {
  first_record = if p.first_record == 0 then r.now else p.first_record;
  a_total = add 1 p.a_total;
  sum_total_ns = add r.total_ns p.sum_total_ns;
  sum_prep_ns = add r.prep_ns p.sum_prep_ns;
  hist_total = add_at (perf_bucket_index r.total_ns) p.hist_total;
  max_total_ns = max r.total_ns p.max_total_ns;
}

unfoldable pub record_resolver_a_resolve : Resolve → Perf → Perf
unfolding count_total count_type count_outcome
record_resolver_a_resolve r p =
    count_outcome r.outcome r (count_total r (count_type r.qtype r.outcome r.total_ns p))

unfoldable pub reset_resolver_perf : Perf → Perf
reset_resolver_perf p = record p {
  a_total = 0;
  outcome_local = 0;
  outcome_cache = 0;
  outcome_upstream = 0;
  outcome_none = 0;
  sum_total_ns = 0;
  sum_prep_ns = 0;
  sum_upstream_wait_ns = 0;
  sum_max_upstream_ns = 0;
  max_total_ns = 0;
  upstream_count_sum = 0;
  first_record = 0;
  hist_total = zeros;
  hist_upstream = zeros;
  hist_local = zeros;
  hist_cache = zeros;
  hist_none = zeros;
  max_total_local_ns = 0;
  max_total_cache_ns = 0;
  max_total_none_ns = 0;
  sum_total_local_ns = 0;
  sum_total_cache_ns = 0;
  sum_total_none_ns = 0;
  qt = [];
}

-- perfHistLabels
abbrev pub perf_hist_labels : List Text
perf_hist_labels =
    codes "[0,1)"
    ∷ codes "[1,2)"
    ∷ codes "[2,4)"
    ∷ codes "[4,8)"
    ∷ codes "[8,16)"
    ∷ codes "[16,32)"
    ∷ codes "[32,64)"
    ∷ codes "[64,inf)"
    ∷ []

pub record TypeReport : Type 0 where
  pub total : ℕ
  pub local : ℕ
  pub cache : ℕ
  pub upstream : ℕ
  pub none_found : ℕ

-- The counts of ResolverPerfReport.
pub record PerfReport : Type 0 where
  pub total : ℕ
  pub outcome_local : ℕ
  pub outcome_cache : ℕ
  pub outcome_upstream : ℕ
  pub outcome_none : ℕ
  pub hist_total_ms : List (Text × ℕ)
  pub hist_upstream_ms : List (Text × ℕ)
  pub hist_local_ms : List (Text × ℕ)
  pub hist_cache_ms : List (Text × ℕ)
  pub hist_none_ms : List (Text × ℕ)
  pub by_query_type : List (Text × TypeReport)

unfoldable pub labelled : List Text → List ℕ → List (Text × ℕ)
labelled [] h = []
labelled (l ∷ ls) [] = []
labelled (l ∷ ls) (n ∷ h) = (l, n) ∷ labelled ls h

-- `if nq == 0 { return true }`
unfoldable pub type_reports : List (Text × PerfQtStats) → List (Text × TypeReport)
type_reports [] = []
type_reports ((qtype, q) ∷ m) =
    let rest = type_reports m in
    if q.total == 0
    then rest
    else (
      qtype,
      record {
        total = q.total;
        local = q.out_local;
        cache = q.out_cache;
        upstream = q.out_upstream;
        none_found = q.out_none;
      },
    )
      ∷ rest

unfoldable pub get_resolver_perf_report : Perf → PerfReport
get_resolver_perf_report p = record {
  total = p.a_total;
  outcome_local = p.outcome_local;
  outcome_cache = p.outcome_cache;
  outcome_upstream = p.outcome_upstream;
  outcome_none = p.outcome_none;
  hist_total_ms = labelled perf_hist_labels p.hist_total;
  hist_upstream_ms = labelled perf_hist_labels p.hist_upstream;
  hist_local_ms = labelled perf_hist_labels p.hist_local;
  hist_cache_ms = labelled perf_hist_labels p.hist_cache;
  hist_none_ms = labelled perf_hist_labels p.hist_none;
  by_query_type = type_reports p.qt;
}
