-- ===== src/Perf/Consistent.antt =====
-- data/resolver_perf.go: the counters after any calls agree with one another.
use dnsplane.Base.{
  ℕ, zero, suc, ◌+◌, ◌∙◌, ◌%◌, ◌^◌, ◌<◌, ◌≡◌, refl, List, [], ◌∷◌, Option, none, some, arith,
  length, get_elem?, set, is_empty, Bool-cases, inl, inr,
}
use mathlib.Core.Option.{some-injective}
use dnsplane.Text.{Text, text_eq}
use dnsplane.Text.Dict.{get, put}
use dnsplane.Perf.{
  Perf, Outcome, perf_outcome_local, perf_outcome_cache, perf_outcome_upstream, perf_outcome_none,
  PerfQtStats, Resolve, perf_bucket_index, add, add_at, new_qt, count_qt_outcome, count_qt,
  qt_or_new, count_type, count_outcome, count_total, record_resolver_a_resolve, reset_resolver_perf,
}
use dnsplane.Perf.Buckets.{perf_bucket_index-InBucket}

abbrev pub sum : List ℕ → ℕ
sum [] = 0
sum (n ∷ h) = n + sum h

sum-set : (h : List ℕ) (b n m : ℕ) → get_elem? h b ≡ some n → sum (set h b m) + n ≡ sum h + m
sum-set [] b n m e = absurd cc
sum-set (x ∷ h) zero n m e = let q = some-injective _ _ e in omega (arith, q)
sum-set (x ∷ h) (suc b) n m e = omega (arith, sum-set h b n m e)

length-set : (h : List ℕ) (b m : ℕ) → length (set h b m) ≡ length h
length-set [] b m = refl
length-set (x ∷ h) zero m = refl
length-set (x ∷ h) (suc b) m = omega (arith, length-set h b m)

get_elem?-below : (h : List ℕ) (b : ℕ) → b < length h → (n : ℕ) × (get_elem? h b ≡ some n)
get_elem?-below [] b l = absurd (omega arith)
get_elem?-below (x ∷ h) zero l = (x, refl)
get_elem?-below (x ∷ h) (suc b) l = get_elem?-below h b (omega arith)

-- A histogram of eight buckets whose counts add up to a number.
unfoldable pub Counts : List ℕ → ℕ → Type 0
Counts h n = (length h ≡ 8) × (sum h % 2 ^ 64 ≡ n % 2 ^ 64)

Counts-add_at :
    (ns : ℕ) (h : List ℕ) (n : ℕ) → Counts h n → Counts (add_at (perf_bucket_index ns) h) (add 1 n)
unfolding Counts add add_at
Counts-add_at ns h n (l, s) =
    let b = perf_bucket_index ns in
    let below = (perf_bucket_index-InBucket ns).0 in
    let found = get_elem?-below h b (omega arith) in
    rw (add_at, found.1)
      (
        length-set h b (add 1 found.0) ∙ l,
        omega (arith, s, sum-set h b found.0 ((found.0 + 1) % 2 ^ 64) found.1),
      )

unfoldable pub IsConsistentQt : PerfQtStats → Type 0
IsConsistentQt q =
    Counts q.hist q.total
    × (q.total % 2 ^ 64 ≡ (q.out_local + q.out_cache + q.out_upstream + q.out_none) % 2 ^ 64)

unfoldable pub AllQt : List (Text × PerfQtStats) → Type 0
AllQt [] = Unit {0}
AllQt ((k, q) ∷ m) = IsConsistentQt q × AllQt m

IsConsistentQt-count_qt :
    (o : Outcome) (ns : ℕ) (q : PerfQtStats) → IsConsistentQt q → IsConsistentQt (count_qt o ns q)
unfolding IsConsistentQt count_qt count_qt_outcome
IsConsistentQt-count_qt perf_outcome_local ns q (h, t) =
    (Counts-add_at ns q.hist q.total h, unfold add in omega arith)
IsConsistentQt-count_qt perf_outcome_cache ns q (h, t) =
    (Counts-add_at ns q.hist q.total h, unfold add in omega arith)
IsConsistentQt-count_qt perf_outcome_upstream ns q (h, t) =
    (Counts-add_at ns q.hist q.total h, unfold add in omega arith)
IsConsistentQt-count_qt perf_outcome_none ns q (h, t) =
    (Counts-add_at ns q.hist q.total h, unfold add in omega arith)

IsConsistentQt-qt_or_new :
    (k : Text) (m : List (Text × PerfQtStats)) → AllQt m → IsConsistentQt (qt_or_new k m)
unfolding qt_or_new get AllQt
IsConsistentQt-qt_or_new k [] a = unfold IsConsistentQt new_qt Counts in ((refl, refl), refl)
IsConsistentQt-qt_or_new k ((j, q) ∷ m) (c, a) = elim (Bool-cases (text_eq j k)) [
  | inl e ↦ rw (qt_or_new, e) c
  | inr n ↦ rw (qt_or_new, n) (IsConsistentQt-qt_or_new k m a)
]

AllQt-put :
    (k : Text) (q : PerfQtStats) (m : List (Text × PerfQtStats))
    → IsConsistentQt q
    → AllQt m
    → AllQt (put k q m)
unfolding put AllQt
AllQt-put k q [] c a = (c, tt)
AllQt-put k q ((j, p) ∷ m) c a = elim (Bool-cases (text_eq j k)) [
  | inl e ↦ rw e (c, a.1)
  | inr n ↦ rw n (a.0, AllQt-put k q m c a.1)
]

unfoldable pub IsConsistent : Perf → Type 0
IsConsistent p =
    (p.a_total % 2 ^ 64
      ≡ (p.outcome_local + p.outcome_cache + p.outcome_upstream + p.outcome_none) % 2 ^ 64)
    × Counts p.hist_total p.a_total
    × Counts p.hist_local p.outcome_local
    × Counts p.hist_cache p.outcome_cache
    × Counts p.hist_upstream p.outcome_upstream
    × Counts p.hist_none p.outcome_none
    × AllQt p.qt

AllQt-count_type :
    (qtype : Text) (o : Outcome) (ns : ℕ) (p : Perf)
    → AllQt p.qt
    → AllQt (count_type qtype o ns p).qt
AllQt-count_type qtype o ns p a = elim (Bool-cases (is_empty qtype)) [
  | inl e ↦ unfold count_type in rw e a
  | inr n ↦
      unfold count_type in
      rw n (
        AllQt-put qtype (count_qt o ns (qt_or_new qtype p.qt)) p.qt
          (IsConsistentQt-count_qt o ns (qt_or_new qtype p.qt)
            (IsConsistentQt-qt_or_new qtype p.qt a))
          a)
]

-- The counts by type aside, count_type changes nothing.
count_type-rest :
    (qtype : Text) (o : Outcome) (ns : ℕ) (p : Perf)
    → count_type qtype o ns p ≡ record p { qt = (count_type qtype o ns p).qt }
unfolding count_type
count_type-rest qtype o ns p = elim (Bool-cases (is_empty qtype)) [
  | inl e ↦ rw e refl
  | inr n ↦ rw n refl
]

IsConsistent-qt :
    (p : Perf) (m : List (Text × PerfQtStats))
    → IsConsistent p
    → AllQt m
    → IsConsistent (record p { qt = m })
unfolding IsConsistent
IsConsistent-qt p m (t, h, l, c, u, n, a) b = (t, h, l, c, u, n, b)

IsConsistent-count :
    (o : Outcome) (r : Resolve) (p : Perf)
    → IsConsistent p
    → IsConsistent (count_outcome o r (count_total r p))
unfolding IsConsistent count_outcome count_total
IsConsistent-count perf_outcome_local r p (t, h, l, c, u, n, a) = (
  unfold add in omega arith,
  Counts-add_at r.total_ns p.hist_total p.a_total h,
  Counts-add_at r.total_ns p.hist_local p.outcome_local l,
  c,
  u,
  n,
  a,
)
IsConsistent-count perf_outcome_cache r p (t, h, l, c, u, n, a) = (
  unfold add in omega arith,
  Counts-add_at r.total_ns p.hist_total p.a_total h,
  l,
  Counts-add_at r.total_ns p.hist_cache p.outcome_cache c,
  u,
  n,
  a,
)
IsConsistent-count perf_outcome_upstream r p (t, h, l, c, u, n, a) = (
  unfold add in omega arith,
  Counts-add_at r.total_ns p.hist_total p.a_total h,
  l,
  c,
  Counts-add_at r.total_ns p.hist_upstream p.outcome_upstream u,
  n,
  a,
)
IsConsistent-count perf_outcome_none r p (t, h, l, c, u, n, a) = (
  unfold add in omega arith,
  Counts-add_at r.total_ns p.hist_total p.a_total h,
  l,
  c,
  u,
  Counts-add_at r.total_ns p.hist_none p.outcome_none n,
  a,
)

IsConsistent-record_resolver_a_resolve :
    (r : Resolve) (p : Perf) → IsConsistent p → IsConsistent (record_resolver_a_resolve r p)
unfolding record_resolver_a_resolve
IsConsistent-record_resolver_a_resolve r p c =
    IsConsistent-count r.outcome r (count_type r.qtype r.outcome r.total_ns p) (
      rw (count_type-rest r.qtype r.outcome r.total_ns p) (
        IsConsistent-qt p (count_type r.qtype r.outcome r.total_ns p).qt c
          (AllQt-count_type r.qtype r.outcome r.total_ns p (unfold IsConsistent in c.6))))

pub IsConsistent-reset : (p : Perf) → IsConsistent (reset_resolver_perf p)
unfolding IsConsistent reset_resolver_perf Counts AllQt
IsConsistent-reset p =
    (refl, (refl, refl), (refl, refl), (refl, refl), (refl, refl), (refl, refl), tt)

-- A call: none for a reset.
unfoldable pub run_calls : List (Option Resolve) → Perf → Perf
run_calls [] p = p
run_calls (none ∷ cs) p = run_calls cs (reset_resolver_perf p)
run_calls (some r ∷ cs) p = run_calls cs (record_resolver_a_resolve r p)

pub IsConsistent-run :
    (cs : List (Option Resolve)) (p : Perf) → IsConsistent p → IsConsistent (run_calls cs p)
unfolding run_calls
IsConsistent-run [] p c = c
IsConsistent-run (none ∷ cs) p c =
    IsConsistent-run cs (reset_resolver_perf p) (IsConsistent-reset p)
IsConsistent-run (some r ∷ cs) p c =
    IsConsistent-run cs (record_resolver_a_resolve r p)
      (IsConsistent-record_resolver_a_resolve r p c)
