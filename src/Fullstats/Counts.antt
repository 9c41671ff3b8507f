-- ===== src/Fullstats/Counts.antt =====
-- fullstats/fullstats.go: the counts after any sequence of recorded requests.
use dnsplane.Base.{
  ℕ, suc, ◌+◌, ◌%◌, ◌^◌, ◌<◌, ◌≡◌, refl, ◌∙◌, Bool, true, false, ◌&&◌, List, [], ◌∷◌, Option, none,
  some, arith, count_if, Bool-cases, inl, inr, if◌then◌else◌,
}
use dnsplane.Text.{Text, text_eq}
use dnsplane.Text.Equality.{text_eq→eq}
use dnsplane.Text.Dict.{get, put, get-put}
use dnsplane.Fullstats.{
  RecordReq, RequestStats, RequesterStats, Tracker, count_of, count_up, stored_request,
  session_request, record_request_sync, get_request_stats, get_session_requests, new,
}

-- A request that the worker takes, with the time and whether the transaction commits.
pub record Recorded : Type 0 where
  pub committed : Bool
  pub now : ℕ
  pub req : RecordReq

-- The latest stands first.
unfoldable pub run : List Recorded → Tracker → Tracker
run [] t = t
run (e ∷ es) t = record_request_sync e.committed e.now e.req (run es t)

-- The count of a row, and its count for a source; a row that is not there has none.
unfoldable pub row_count : Option RequestStats → ℕ
row_count none = 0
row_count (some st) = st.count

unfoldable pub row_source : Text → Option RequestStats → ℕ
row_source s none = 0
row_source s (some st) = count_of s st.source_count

-- The committed requests with the key that pass a test.
unfoldable pub recorded : Text → (RecordReq → Bool) → List Recorded → ℕ
recorded k counts es = count_if (λ e. e.committed && (text_eq e.req.key k && counts e.req)) es

not_committed : (now : ℕ) (r : RecordReq) (t : Tracker) → record_request_sync false now r t ≡ t
unfolding record_request_sync
not_committed now r t = refl

count_of-count_up :
    (k j : Text) (m : List (Text × ℕ))
    → count_of j (count_up k m)
      ≡ (if text_eq k j then suc (count_of j m) % 2 ^ 64 else count_of j m)
unfolding count_of count_up
count_of-count_up k j m =
    let g = get-put k j (suc (count_of k m) % 2 ^ 64) m in
    elim (Bool-cases (text_eq k j)) [
      | inl q ↦ let same : k ≡ j = text_eq→eq k j q in rw (count_of, count_up, g, q, same) refl
      | inr q ↦ rw (count_of, count_up, g, q) refl
    ]

row_count-stored :
    (now : ℕ) (s : Text) (o : Option RequestStats)
    → row_count (some (stored_request now s o)) ≡ suc (row_count o) % 2 ^ 64
unfolding row_count stored_request
row_count-stored now s none = refl
row_count-stored now s (some st) = refl

row_count-session :
    (now : ℕ) (s : Text) (o : Option RequestStats)
    → row_count (some (session_request now s o)) ≡ suc (row_count o) % 2 ^ 64
unfolding row_count session_request
row_count-session now s none = omega arith
row_count-session now s (some st) = refl

row_source-stored :
    (now : ℕ) (r s : Text) (o : Option RequestStats)
    → row_source s (some (stored_request now r o))
      ≡ (if text_eq r s then suc (row_source s o) % 2 ^ 64 else row_source s o)
unfolding row_source stored_request
row_source-stored now r s none = count_of-count_up r s [] ∙ (unfold count_of get in refl)
row_source-stored now r s (some st) = count_of-count_up r s st.source_count

row_source-session :
    (now : ℕ) (r s : Text) (o : Option RequestStats)
    → row_source s (some (session_request now r o))
      ≡ (if text_eq r s then suc (row_source s o) % 2 ^ 64 else row_source s o)
unfolding row_source session_request
row_source-session now r s none = unfold count_of get in ground arith
row_source-session now r s (some st) = count_of-count_up r s st.source_count

-- What a request adds to a measure of the row of a key, where `counts` tells whether it counts.
row-put :
    (k key : Text) (measure : Option RequestStats → ℕ) (counts : Bool)
    (f : Option RequestStats → RequestStats) (m : List (Text × RequestStats))
    → ((o : Option RequestStats)
        → measure (some (f o)) ≡ (if counts then suc (measure o) % 2 ^ 64 else measure o))
    → measure (get k (put key (f (get key m)) m))
      ≡ (if text_eq key k && counts then suc (measure (get k m)) % 2 ^ 64 else measure (get k m))
row-put k key measure counts f m h =
    rw (get-put key k (f (get key m)) m) (elim (Bool-cases (text_eq key k)) [
      | inr q ↦ rw q refl
      | inl q ↦ let same : key ≡ k = text_eq→eq key k q in rw (q, same) (h (get k m))
    ])

-- A measure of the row of a key in one of the two maps, after any requests.
module _ (k : Text) (measure : Option RequestStats → ℕ) (counts : RecordReq → Bool)
    (rows : Tracker → List (Text × RequestStats))
    (step : (now : ℕ) (r : RecordReq) (t : Tracker)
      → measure (get k (rows (record_request_sync true now r t))) ≡ (
          if text_eq r.key k && counts r
          then suc (measure (get k (rows t))) % 2 ^ 64
          else measure (get k (rows t)))) where
  measure-run :
      (es : List Recorded) (t : Tracker)
      → measure (get k (rows t)) < 2 ^ 64
      → measure (get k (rows (run es t)))
        ≡ (measure (get k (rows t)) + recorded k counts es) % 2 ^ 64
  unfolding run recorded
  measure-run [] t h = omega arith
  measure-run (e ∷ es) t h =
      let ih = measure-run es t h in
      let st = step e.now e.req (run es t) in
      elim (Bool-cases e.committed) [
        | inr n ↦ rw (n, not_committed e.now e.req (run es t)) ih
        | inl c ↦ rw c (
            st ∙ (elim (Bool-cases (text_eq e.req.key k && counts e.req)) [
              | inr q ↦ rw q ih
              | inl q ↦ rw (q, ih) (omega arith)
            ]))
      ]

-- After any requests that the worker takes, from a new tracker: the count of a key in the database
-- is the one found there plus the number of the key's requests whose transaction committed, modulo
-- 2^64; in the session it is that number modulo 2^64, and the count of a source of the key is the
-- number of those with the source. The count found is below 2^64.
pub run-recorded :
    (k : Text) (es : List Recorded) (requests : List (Text × RequestStats))
    (requesters : List (Text × RequesterStats))
    → row_count (get k requests) < 2 ^ 64
    → let after = run es (new requests requesters) in
      (row_count (get_request_stats k after)
        ≡ (row_count (get k requests) + recorded k (λ r. true) es) % 2 ^ 64)
      × (row_count (get k (get_session_requests after)) ≡ recorded k (λ r. true) es % 2 ^ 64)
      × ((s : Text)
          → row_source s (get k (get_session_requests after))
            ≡ recorded k (λ r. text_eq r.source s) es % 2 ^ 64)
unfolding get_request_stats get_session_requests new row_count row_source get record_request_sync
run-recorded k es requests requesters h =
    let t = new requests requesters in
    (
      measure-run k row_count (λ r. true) (λ u. u.db_requests)
          (λ now r u.
            row-put k r.key row_count true (stored_request now r.source) u.db_requests
              (row_count-stored now r.source))
          es t h,
      measure-run k row_count (λ r. true) (λ u. u.session_requests)
            (λ now r u.
              row-put k r.key row_count true (session_request now r.source) u.session_requests
                (row_count-session now r.source))
            es t (omega arith)
          ∙ omega arith,
      λ s.
          measure-run k (row_source s) (λ r. text_eq r.source s) (λ u. u.session_requests)
            (λ now r u.
              row-put k r.key (row_source s) (text_eq r.source s) (session_request now r.source)
                u.session_requests (row_source-session now r.source s))
            es t (omega arith)
          ∙ omega arith,
    )
