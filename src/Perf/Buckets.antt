-- ===== src/Perf/Buckets.antt =====
-- data/resolver_perf.go: the buckets of the histograms.
use dnsplane.Base.{ℕ, ◌*◌, ◌/◌, ◌^◌, ◌<◌, ◌≤◌, ◌≢◌, arith, Bool-cases, ltb, inl, inr}
use dnsplane.Perf.{perf_bucket_index}

-- The ranges that the labels of the report name: a bucket after the first starts at a power of two,
-- a bucket before the last ends at the next.
abbrev pub InBucket : ℕ → ℕ → Type 0
InBucket i ms = (i < 8) × (i ≢ 7 → ms < 2 ^ i) × (i ≢ 0 → 2 ^ i ≤ 2 * ms)

pub perf_bucket_index-InBucket : (ns : ℕ) → InBucket (perf_bucket_index ns) (ns / 1000000)
unfolding perf_bucket_index
perf_bucket_index-InBucket ns =
    let ms = ns / 1000000 in
    elim (Bool-cases (ltb ms 1)) [
      | inl e0 ↦ rw (e0) (omega arith, λ k. ground arith, λ k. ground arith)
      | inr n0 ↦ elim (Bool-cases (ltb ms 2)) [
        | inl e1 ↦ rw (n0, e1) (omega arith, λ k. ground arith, λ k. ground arith)
        | inr n1 ↦ elim (Bool-cases (ltb ms 4)) [
          | inl e2 ↦ rw (n0, n1, e2) (omega arith, λ k. ground arith, λ k. ground arith)
          | inr n2 ↦ elim (Bool-cases (ltb ms 8)) [
            | inl e3 ↦ rw (n0, n1, n2, e3) (omega arith, λ k. ground arith, λ k. ground arith)
            | inr n3 ↦ elim (Bool-cases (ltb ms 16)) [
              | inl e4 ↦ rw (n0, n1, n2, n3, e4) (omega arith, λ k. ground arith, λ k. ground arith)
              | inr n4 ↦ elim (Bool-cases (ltb ms 32)) [
                | inl e5 ↦
                    rw (n0, n1, n2, n3, n4, e5) (omega arith, λ k. ground arith, λ k. ground arith)
                | inr n5 ↦ elim (Bool-cases (ltb ms 64)) [
                  | inl e6 ↦
                      rw (n0, n1, n2, n3, n4, n5, e6)
                        (omega arith, λ k. ground arith, λ k. ground arith)
                  | inr n6 ↦
                      rw (n0, n1, n2, n3, n4, n5, n6)
                        (omega arith, λ k. ground arith, λ k. ground arith)
                ]
              ]
            ]
          ]
        ]
      ]
    ]
