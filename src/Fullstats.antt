-- ===== src/Fullstats.antt =====
-- fullstats/fullstats.go: the statistics of requests and requesters, kept in a database and, since
-- the start, in memory. The two buckets of the database are maps of the rows, whose JSON is not
-- modelled; whether a transaction commits is an argument, and one that does not changes nothing.
-- The tracker is one that New returns when the statistics are on. A uint64 wraps.
pub mod Counts
pub mod Sums
use dnsplane.Base.{
  ℕ, suc, ◌+◌, ◌%◌, ◌^◌, Bool, true, false, List, [], ◌∷◌, ◌++◌, Option, none, some, length,
  is_empty, ltb, if◌then◌else◌,
}
use dnsplane.Text.{Text, codes, to_lower, trim_space}
use dnsplane.Text.Dict.{get, put}

-- recordReq
pub record RecordReq : Type 0 where
  pub key : Text
  pub requester_ip : Text
  pub record_type : Text
  pub source : Text

pub record RequestStats : Type 0 where
  pub first_seen : ℕ
  pub last_seen : ℕ
  pub count : ℕ
  pub source_count : List (Text × ℕ)

pub record RequesterStats : Type 0 where
  pub first_seen : ℕ
  pub type_count : List (Text × ℕ)
  pub source_count : List (Text × ℕ)

-- `queue` is what stands in asyncCh.
pub record Tracker : Type 0 where
  pub db_requests : List (Text × RequestStats)
  pub db_requesters : List (Text × RequesterStats)
  pub queue : List RecordReq
  pub session_requests : List (Text × RequestStats)
  pub session_requesters : List (Text × RequesterStats)

abbrev pub async_queue_size : ℕ
async_queue_size = 10000

-- New, with the buckets as they are found
unfoldable pub new : List (Text × RequestStats) → List (Text × RequesterStats) → Tracker
new requests requesters = record {
  db_requests = requests;
  db_requesters = requesters;
  queue = [];
  session_requests = [];
  session_requesters = [];
}

unfoldable pub normalize_source : Text → Text
normalize_source s = let t = to_lower (trim_space s) in if is_empty t then codes "unknown" else t

-- RecordRequest: a request that finds the queue full is dropped.
unfoldable pub record_request : Text → Text → Text → Text → Tracker → Tracker
record_request key requester_ip record_type source t =
    if ltb (length t.queue) async_queue_size
    then record t {
      queue =
          t.queue
          ++ record {
            key = key;
            requester_ip = requester_ip;
            record_type = record_type;
            source = normalize_source source;
          }
            ∷ [];
    }
    else t

-- `m[k]` of a map of counts, and `m[k]++`
unfoldable pub count_of : Text → List (Text × ℕ) → ℕ
count_of k m = elim (get k m) [ none ↦ 0 | some n ↦ n ]

unfoldable pub count_up : Text → List (Text × ℕ) → List (Text × ℕ)
count_up k m = put k (suc (count_of k m) % 2 ^ 64) m

-- The row of the database that a request leaves, from the one found, if any.
unfoldable pub stored_request : ℕ → Text → Option RequestStats → RequestStats
stored_request now source none = record {
  first_seen = now;
  last_seen = now;
  count = suc 0 % 2 ^ 64;
  source_count = count_up source [];
}
stored_request now source (some st) = record st {
  last_seen = now;
  count = suc st.count % 2 ^ 64;
  source_count = count_up source st.source_count;
}

unfoldable pub stored_requester : ℕ → Text → Text → Option RequesterStats → RequesterStats
stored_requester now record_type source none = record {
  first_seen = now;
  type_count = count_up record_type [];
  source_count = count_up source [];
}
stored_requester now record_type source (some st) = record st {
  type_count = count_up record_type st.type_count;
  source_count = count_up source st.source_count;
}

-- The same in memory, where a new entry is written out.
unfoldable pub session_request : ℕ → Text → Option RequestStats → RequestStats
session_request now source none = record {
  first_seen = now;
  last_seen = now;
  count = 1;
  source_count = (source, 1) ∷ [];
}
session_request now source (some st) = record st {
  last_seen = now;
  count = suc st.count % 2 ^ 64;
  source_count = count_up source st.source_count;
}

unfoldable pub session_requester : ℕ → Text → Text → Option RequesterStats → RequesterStats
session_requester now record_type source none = record {
  first_seen = now;
  type_count = (record_type, 1) ∷ [];
  source_count = (source, 1) ∷ [];
}
session_requester now record_type source (some st) = record st {
  type_count = count_up record_type st.type_count;
  source_count = count_up source st.source_count;
}

-- `committed` is whether the transaction commits.
unfoldable pub record_request_sync : Bool → ℕ → RecordReq → Tracker → Tracker
record_request_sync committed now r t =
    if committed
    then record t {
      db_requests = put r.key (stored_request now r.source (get r.key t.db_requests)) t.db_requests;
      db_requesters =
          put r.requester_ip
            (stored_requester now r.record_type r.source (get r.requester_ip t.db_requesters))
            t.db_requesters;
      session_requests =
          put r.key (session_request now r.source (get r.key t.session_requests))
            t.session_requests;
      session_requesters =
          put r.requester_ip
            (session_requester now r.record_type r.source (get r.requester_ip t.session_requesters))
            t.session_requesters;
    }
    else t

-- One turn of asyncWorker, on what stands in the channel.
unfoldable pub work_on : Bool → ℕ → List RecordReq → Tracker → Tracker
work_on committed now [] t = t
work_on committed now (r ∷ rest) t = record_request_sync committed now r (record t { queue = rest })

unfoldable pub work : Bool → ℕ → Tracker → Tracker
work committed now t = work_on committed now t.queue t

unfoldable pub clear : Bool → Tracker → Tracker
clear committed t =
    if committed
    then record t {
      db_requests = [];
      db_requesters = [];
      session_requests = [];
      session_requesters = [];
    }
    else t

unfoldable pub get_request_stats : Text → Tracker → Option RequestStats
get_request_stats key t = get key t.db_requests

unfoldable pub get_requester_stats : Text → Tracker → Option RequesterStats
get_requester_stats requester_ip t = get requester_ip t.db_requesters

unfoldable pub get_session_requests : Tracker → List (Text × RequestStats)
get_session_requests t = t.session_requests

unfoldable pub get_session_requesters : Tracker → List (Text × RequesterStats)
get_session_requesters t = t.session_requesters

unfoldable pub get_all_requests : Tracker → List (Text × RequestStats)
get_all_requests t = t.db_requests

unfoldable pub get_all_requesters : Tracker → List (Text × RequesterStats)
get_all_requesters t = t.db_requesters
