-- ===== src/Fullstats/Sums.antt =====
-- fullstats/fullstats.go: what every state of the tracker keeps: the counts of the sources add up
-- to the count of a row, and the queue is bounded.
use dnsplane.Base.{
  ℕ, suc, ◌+◌, ◌%◌, ◌^◌, ◌≤◌, ◌≡◌, refl, sym, Bool, true, false, List, [], ◌∷◌, Option, none, some,
  arith, length, length-append, ltb, Bool-cases, inl, inr,
}
use dnsplane.Text.{Text, text_eq}
use dnsplane.Text.Dict.{get, put, get-put}
use dnsplane.Fullstats.{
  RecordReq, RequestStats, Tracker, count_of, count_up, stored_request, session_request,
  record_request_sync, record_request, work, work_on, clear, async_queue_size,
}

-- The sum of a map of counts.
unfoldable pub sum_counts : List (Text × ℕ) → ℕ
sum_counts [] = 0
sum_counts ((k, n) ∷ m) = n + sum_counts m

unfoldable pub IsTallied : Option RequestStats → Type 0
IsTallied none = Unit {0}
IsTallied (some st) = st.count % 2 ^ 64 ≡ sum_counts st.source_count % 2 ^ 64

abbrev pub AllTallied : List (Text × RequestStats) → Type 0
AllTallied m = (k : Text) → IsTallied (get k m)

unfoldable pub IsSound : Tracker → Type 0
IsSound t =
    AllTallied t.db_requests × AllTallied t.session_requests × (length t.queue ≤ async_queue_size)

-- What is done to a tracker: a request recorded, a turn of the worker, a clearing.
pub data Step : Type 0 where
  enqueue : Text → Text → Text → Text → Step
  worked : Bool → ℕ → Step
  cleared : Bool → Step

unfoldable pub step : Step → Tracker → Tracker
step (enqueue key requester_ip record_type source) t =
    record_request key requester_ip record_type source t
step (worked committed now) t = work committed now t
step (cleared committed) t = clear committed t

unfoldable pub steps : List Step → Tracker → Tracker
unfolding step
steps [] t = t
steps (s ∷ ss) t = steps ss (step s t)

sum_counts-put :
    (k : Text) (n : ℕ) (m : List (Text × ℕ))
    → sum_counts (put k n m) + count_of k m ≡ n + sum_counts m
unfolding sum_counts put count_of get
sum_counts-put k n [] = omega arith
sum_counts-put k n ((j, c) ∷ m) = elim (Bool-cases (text_eq j k)) [
  | inl q ↦ rw (q, count_of) (omega arith)
  | inr q ↦ rw (q, count_of) (omega (arith, sum_counts-put k n m))
]

sum_counts-count_up :
    (k : Text) (m : List (Text × ℕ))
    → sum_counts (count_up k m) % 2 ^ 64 ≡ suc (sum_counts m) % 2 ^ 64
unfolding count_up
sum_counts-count_up k m = omega (arith, sum_counts-put k (suc (count_of k m) % 2 ^ 64) m)

IsTallied-stored :
    (now : ℕ) (s : Text) (o : Option RequestStats)
    → IsTallied o
    → IsTallied (some (stored_request now s o))
unfolding IsTallied stored_request sum_counts
IsTallied-stored now s none h = sym (sum_counts-count_up s [])
IsTallied-stored now s (some st) h = omega (arith, h, sum_counts-count_up s st.source_count)

IsTallied-session :
    (now : ℕ) (s : Text) (o : Option RequestStats)
    → IsTallied o
    → IsTallied (some (session_request now s o))
unfolding IsTallied session_request sum_counts
IsTallied-session now s none h = refl
IsTallied-session now s (some st) h = omega (arith, h, sum_counts-count_up s st.source_count)

AllTallied-put :
    (k : Text) (f : Option RequestStats → RequestStats) (m : List (Text × RequestStats))
    → ((o : Option RequestStats) → IsTallied o → IsTallied (some (f o)))
    → AllTallied m
    → AllTallied (put k (f (get k m)) m)
AllTallied-put k f m h a j =
    rw get-put
      (elim (Bool-cases (text_eq k j)) [ inl q ↦ rw q (h (get k m) (a k)) | inr q ↦ rw q (a j) ])

IsSound-record_request_sync :
    (committed : Bool) (now : ℕ) (r : RecordReq) (t : Tracker)
    → IsSound t
    → IsSound (record_request_sync committed now r t)
unfolding IsSound record_request_sync
IsSound-record_request_sync true now r t (d, e, q) = (
  AllTallied-put r.key (stored_request now r.source) t.db_requests (IsTallied-stored now r.source)
      d,
  AllTallied-put r.key (session_request now r.source) t.session_requests
      (IsTallied-session now r.source) e,
  q,
)
IsSound-record_request_sync false now r t h = h

IsSound-work_on :
    (committed : Bool) (now : ℕ) (queue : List RecordReq) (t : Tracker)
    → length queue ≤ async_queue_size
    → IsSound t
    → IsSound (work_on committed now queue t)
unfolding work_on IsSound
IsSound-work_on committed now [] t n h = h
IsSound-work_on committed now (r ∷ rest) t n (d, e, q) =
    IsSound-record_request_sync committed now r (record t { queue = rest }) (d, e, omega arith)

IsSound-record_request :
    (key requester_ip record_type source : Text) (t : Tracker)
    → IsSound t
    → IsSound (record_request key requester_ip record_type source t)
unfolding IsSound record_request
IsSound-record_request key requester_ip record_type source t (d, e, q) =
    elim (Bool-cases (ltb (length t.queue) async_queue_size)) [
      | inl f ↦ rw f (d, e, rw length-append (ground arith))
      | inr n ↦ rw n (d, e, q)
    ]

IsSound-step : (s : Step) (t : Tracker) → IsSound t → IsSound (step s t)
unfolding step
IsSound-step (enqueue key requester_ip record_type source) t h =
    IsSound-record_request key requester_ip record_type source t h
IsSound-step (worked committed now) t h =
    unfold work in IsSound-work_on committed now t.queue t (unfold IsSound in h.2) h
IsSound-step (cleared true) t h = unfold IsSound clear IsTallied get in (λ k. tt, λ k. tt, h.2)
IsSound-step (cleared false) t h = unfold clear in h

-- Whatever requests are recorded, turns the worker takes and clearings are made, whether or not
-- their transactions commit: the counts of the sources of each row of requests, in the database
-- and in the session, add up to the count of the row modulo 2^64, and the queue has at most 10000
-- requests, if that was so at the start.
pub steps-IsSound : (ss : List Step) (t : Tracker) → IsSound t → IsSound (steps ss t)
unfolding steps
steps-IsSound [] t h = h
steps-IsSound (s ∷ ss) t h = steps-IsSound ss (step s t) (IsSound-step s t h)
