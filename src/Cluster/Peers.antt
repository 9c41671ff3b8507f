-- ===== src/Cluster/Peers.antt =====
-- cluster/status.go: what is known of each peer, in a map by its address, and the merge of the
-- addresses of cluster/discovery.go. A time is a number of seconds; a round trip time is one of
-- milliseconds.
pub mod Merged
pub mod Reachable
use dnsplane.Base.{
  ℕ, Bool, true, false, List, [], ◌∷◌, ◌++◌, Option, none, some, any, is_empty, if◌then◌else◌,
}
use dnsplane.Text.{Text, text_eq, trim_space}
use dnsplane.Text.Dict.{get, put}

pub record PeerStatus : Type 0 where
  pub address : Text
  pub last_outbound_ok : Option ℕ
  pub last_outbound_err : Text
  pub last_inbound_ok : Option ℕ
  pub last_pull_ok : Option ℕ
  pub last_probe_ok : Option ℕ
  pub last_probe_rtt_ms : ℕ
  pub last_probe_err : Text
  pub reachable : Bool

abbrev pub PeerTracker : Type 0
PeerTracker = List (Text × PeerStatus)

-- `PeerStatus{Address: a, Reachable: false}`
unfoldable pub new_status : Text → PeerStatus
new_status a = record {
  address = a;
  last_outbound_ok = none;
  last_outbound_err = [];
  last_inbound_ok = none;
  last_pull_ok = none;
  last_probe_ok = none;
  last_probe_rtt_ms = 0;
  last_probe_err = [];
  reachable = false;
}

unfoldable pub get_or_create : Text → PeerTracker → PeerStatus
unfolding new_status
get_or_create a t = elim (get a t) [ none ↦ new_status a | some p ↦ p ]

-- What the four record functions share: the trimmed address, nothing for an empty one, and the
-- update of the entry of the address.
unfoldable pub update_peer : Text → (PeerStatus → PeerStatus) → PeerTracker → PeerTracker
update_peer addr f t =
    let a = trim_space addr in if is_empty a then t else put a (f (get_or_create a t)) t

unfoldable pub with_outbound : ℕ → Option Text → PeerStatus → PeerStatus
with_outbound now none p = record p { last_outbound_ok = some now; last_outbound_err = [] }
with_outbound now (some err) p = record p { last_outbound_err = err }

-- The arguments `ok` and `errStr`: none for ok, else the error.
unfoldable pub record_outbound : ℕ → Text → Option Text → PeerTracker → PeerTracker
record_outbound now addr err t = update_peer addr (with_outbound now err) t

unfoldable pub with_inbound : ℕ → PeerStatus → PeerStatus
with_inbound now p = record p { last_inbound_ok = some now }

unfoldable pub record_inbound : ℕ → Text → PeerTracker → PeerTracker
record_inbound now addr t = update_peer addr (with_inbound now) t

unfoldable pub with_pull : ℕ → Bool → PeerStatus → PeerStatus
with_pull now true p = record p { last_pull_ok = some now }
with_pull now false p = p

unfoldable pub record_pull : ℕ → Text → Bool → PeerTracker → PeerTracker
record_pull now addr ok t = update_peer addr (with_pull now ok) t

unfoldable pub with_probe : ℕ → ℕ → Option Text → PeerStatus → PeerStatus
with_probe now rtt none p = record p {
  last_probe_ok = some now;
  last_probe_rtt_ms = rtt;
  last_probe_err = [];
  reachable = true;
}
with_probe now rtt (some err) p = record p { last_probe_err = err; reachable = false }

unfoldable pub record_probe : ℕ → Text → ℕ → Option Text → PeerTracker → PeerTracker
record_probe now addr rtt err t = update_peer addr (with_probe now rtt err) t

unfoldable pub snapshot : PeerTracker → List Text → List PeerStatus
snapshot t [] = []
snapshot t (addr ∷ addrs) =
    let a = trim_space addr in
    let rest = snapshot t addrs in if is_empty a then rest else get_or_create a t ∷ rest

-- The loop of MergePeerAddrs over one list, with the addresses that are out already, which are
-- those in `seen`.
unfoldable pub merge_onto : List Text → List Text → List Text
merge_onto out [] = out
merge_onto out (addr ∷ addrs) =
    let a = trim_space addr in
    merge_onto
      (if is_empty a then out else if any (λ b. text_eq b a) out then out else out ++ a ∷ []) addrs

unfoldable pub merge_peer_addrs : List Text → List Text → List Text
merge_peer_addrs static extra = merge_onto (merge_onto [] static) extra
