-- ===== src/Perf/Report.antt =====
-- data/resolver_perf.go: the counts of a report agree with one another.
use dnsplane.Base.{
  ℕ, ◌+◌, ◌%◌, ◌^◌, ◌≡◌, refl, List, [], ◌∷◌, Option, arith, length, ◌==◌, Bool-cases, inl, inr,
}
use dnsplane.Text.{Text}
use dnsplane.Perf.{
  Perf, PerfQtStats, Resolve, PerfReport, TypeReport, reset_resolver_perf, labelled,
  perf_hist_labels, type_reports, get_resolver_perf_report,
}
use dnsplane.Perf.Consistent.{
  sum, Counts, IsConsistentQt, AllQt, IsConsistent, IsConsistent-reset, IsConsistent-run, run_calls,
}

unfoldable pub sum_labelled : List (Text × ℕ) → ℕ
sum_labelled [] = 0
sum_labelled ((l, n) ∷ h) = n + sum_labelled h

-- The rows of the types, each with the outcomes that add up to its total.
unfoldable pub AllTypes : List (Text × TypeReport) → Type 0
AllTypes [] = Unit {0}
AllTypes ((k, r) ∷ m) =
    (r.total % 2 ^ 64 ≡ (r.local + r.cache + r.upstream + r.none_found) % 2 ^ 64) × AllTypes m

-- The outcomes of a report and its histograms add up.
unfoldable pub IsBalanced : PerfReport → Type 0
IsBalanced r =
    (r.total % 2 ^ 64
      ≡ (r.outcome_local + r.outcome_cache + r.outcome_upstream + r.outcome_none) % 2 ^ 64)
    × (sum_labelled r.hist_total_ms % 2 ^ 64 ≡ r.total % 2 ^ 64)
    × (sum_labelled r.hist_local_ms % 2 ^ 64 ≡ r.outcome_local % 2 ^ 64)
    × (sum_labelled r.hist_cache_ms % 2 ^ 64 ≡ r.outcome_cache % 2 ^ 64)
    × (sum_labelled r.hist_upstream_ms % 2 ^ 64 ≡ r.outcome_upstream % 2 ^ 64)
    × (sum_labelled r.hist_none_ms % 2 ^ 64 ≡ r.outcome_none % 2 ^ 64)
    × AllTypes r.by_query_type

sum_labelled-labelled :
    (ls : List Text) (h : List ℕ) → length h ≡ length ls → sum_labelled (labelled ls h) ≡ sum h
unfolding sum_labelled labelled
sum_labelled-labelled [] [] e = refl
sum_labelled-labelled [] (n ∷ h) e = absurd (omega arith)
sum_labelled-labelled (l ∷ ls) [] e = refl
sum_labelled-labelled (l ∷ ls) (n ∷ h) e = omega (arith, sum_labelled-labelled ls h (omega arith))

sum-Counts :
    (h : List ℕ) (n : ℕ)
    → Counts h n
    → sum_labelled (labelled perf_hist_labels h) % 2 ^ 64 ≡ n % 2 ^ 64
unfolding Counts
sum-Counts h n (l, s) = rw (sum_labelled-labelled perf_hist_labels h l) s

AllTypes-type_reports : (m : List (Text × PerfQtStats)) → AllQt m → AllTypes (type_reports m)
unfolding AllTypes AllQt type_reports
AllTypes-type_reports [] a = tt
AllTypes-type_reports ((k, q) ∷ m) a = elim (Bool-cases (q.total == 0)) [
  | inl e ↦ rw e (AllTypes-type_reports m a.1)
  | inr n ↦ rw n ((unfold IsConsistentQt in a.0.1), AllTypes-type_reports m a.1)
]

-- After a reset and any resolutions and resets, the outcomes of the report add up to its total,
-- each histogram to the total or to the outcome that it is of, and the outcomes of each type of
-- question to the total of the type, all modulo 2^64.
pub report-IsBalanced :
    (p : Perf) (cs : List (Option Resolve))
    → IsBalanced (get_resolver_perf_report (run_calls cs (reset_resolver_perf p)))
unfolding IsBalanced get_resolver_perf_report IsConsistent
report-IsBalanced p cs =
    let q = run_calls cs (reset_resolver_perf p) in
    let c = IsConsistent-run cs (reset_resolver_perf p) (IsConsistent-reset p) in
    (
      c.0,
      sum-Counts q.hist_total q.a_total c.1,
      sum-Counts q.hist_local q.outcome_local c.2,
      sum-Counts q.hist_cache q.outcome_cache c.3,
      sum-Counts q.hist_upstream q.outcome_upstream c.4,
      sum-Counts q.hist_none q.outcome_none c.5,
      AllTypes-type_reports q.qt c.6,
    )
