-- ===== src/Cluster.antt =====
-- cluster/state.go, cluster/policy.go, the frames of cluster/proto.go, and from cluster/cluster.go
-- what pullOne and the serving of a push do with a snapshot: the duplicate test, the policy, the
-- apply, the commits. The state is what stateManager keeps in memory; its file, the JSON of the
-- messages and the sockets are not modelled. PeerSeq is an association list in which a missing
-- node has the number 0. ApplyClusterRecords is an argument.
pub mod Sequence
pub mod Lww
pub mod Frame
pub mod Wire
pub mod Peers
pub mod Discovery
pub mod Manager
pub mod Applied
pub mod Serve
pub mod Dial
use dnsplane.Base.{
  ℕ, suc, ◌+◌, ◌%◌, ◌^◌, Bool, true, false, ◌&&◌, not, List, [], ◌∷◌, Option, none, some, ltb, leb,
  ◌==◌, any, is_empty, if◌then◌else◌,
}
use dnsplane.Base.Int.{ℤ, pos, negsuc}
use dnsplane.Text.{Text, codes, text_eq, text_lt, trim_space, to_lower}
use dnsplane.Text.Dict.{get, put}

pub record StateManager : Type 0 where
  pub node_id : Text
  pub local_seq : ℕ
  pub peer_seq : List (Text × ℕ)
  pub last_global_lww_unix : ℤ
  pub last_global_lww_node_id : Text

-- s.peerSeq[id]
unfoldable pub peer_seq_of : Text → List (Text × ℕ) → ℕ
peer_seq_of id m = elim (get id m) [ none ↦ 0 | some n ↦ n ]

-- A uint64 wraps.
unfoldable pub next_local_seq : StateManager → StateManager × ℕ
next_local_seq s = let n = suc s.local_seq % 2 ^ 64 in (record s { local_seq = n }, n)

-- `if seq == 0 { seq = 1 }`
unfoldable pub floor_seq : ℕ → ℕ
floor_seq seq = if seq == 0 then 1 else seq

unfoldable pub is_duplicate : StateManager → Text → ℕ → Bool
is_duplicate s id seq =
    if is_empty id then true else leb (floor_seq seq) (peer_seq_of id s.peer_seq)

unfoldable pub commit_peer_seq : Text → ℕ → StateManager → StateManager
commit_peer_seq id seq s =
    if is_empty id
    then s
    else if ltb (peer_seq_of id s.peer_seq) (floor_seq seq)
    then record s { peer_seq = put id (floor_seq seq) s.peer_seq }
    else s

-- The order of int64 values.
unfoldable pub lt_int : ℤ → ℤ → Bool
lt_int (pos m) (pos n) = ltb m n
lt_int (pos m) (negsuc n) = false
lt_int (negsuc m) (pos n) = true
lt_int (negsuc m) (negsuc n) = ltb n m

unfoldable pub is_zero : ℤ → Bool
is_zero (pos n) = n == 0
is_zero (negsuc n) = false

-- `if ts <= 0 { ts = 1 }`
unfoldable pub floor_ts : ℤ → ℤ
floor_ts ts = if lt_int (pos 0) ts then ts else pos 1

unfoldable pub should_accept_global_lww : StateManager → ℤ → Text → Bool
should_accept_global_lww s ts id =
    let ts = floor_ts ts in
    let id = trim_space id in
    if is_zero s.last_global_lww_unix && is_empty s.last_global_lww_node_id
    then true
    else if lt_int s.last_global_lww_unix ts
    then true
    else if lt_int ts s.last_global_lww_unix
    then false
    else text_lt s.last_global_lww_node_id id

unfoldable pub commit_global_lww : ℤ → Text → StateManager → StateManager
commit_global_lww ts id s = record s {
  last_global_lww_unix = floor_ts ts;
  last_global_lww_node_id = trim_space id;
}

pub data SyncPolicy : Type 0 where
  lww_per_node : SyncPolicy
  primary_writer : SyncPolicy
  global_lww : SyncPolicy

unfoldable pub normalize_sync_policy : Text → SyncPolicy
normalize_sync_policy policy =
    let t = to_lower (trim_space policy) in
    if text_eq t (codes "primary_writer")
    then primary_writer
    else if text_eq t (codes "global_lww")
    then global_lww
    else lww_per_node

unfoldable pub writer_allowed : List Text → Text → Bool
writer_allowed allowed id =
    let id = trim_space id in
    if is_empty id then false else any (λ a. text_eq (trim_space a) id) allowed

-- The fields of config.Config that are read.
pub record Config : Type 0 where
  pub sync_policy : Text
  pub allowed_writer_node_ids : List Text

pub record RecordsFull {ℓ} (R : Type ℓ) : Type ℓ where
  pub node_id : Text
  pub seq : ℕ
  pub timestamp : ℤ
  pub records : List R

module _ {ℓ} {R : Type ℓ} where
  unfoldable pub should_apply_snapshot : Config → StateManager → RecordsFull R → Bool
  should_apply_snapshot cfg s msg = elim (normalize_sync_policy cfg.sync_policy) [
    | lww_per_node ↦ true
    | primary_writer ↦
        if is_empty cfg.allowed_writer_node_ids
        then false
        else writer_allowed cfg.allowed_writer_node_ids msg.node_id
    | global_lww ↦ should_accept_global_lww s (floor_ts msg.timestamp) msg.node_id
  ]

  -- `if NormalizeSyncPolicy(…) == SyncPolicyGlobalLWW { … }`
  unfoldable pub commit_policy : Config → RecordsFull R → StateManager → StateManager
  commit_policy cfg msg s = elim (normalize_sync_policy cfg.sync_policy) [
    | lww_per_node ↦ s
    | primary_writer ↦ s
    | global_lww ↦ commit_global_lww (floor_ts msg.timestamp) msg.node_id s
  ]

  -- What a snapshot does to the state and to the store: ApplyClusterRecords gives the store then,
  -- or none when it fails.
  unfoldable pub receive {κ} :
      {D : Type κ}
      → Config
      → (List R → D → Option D)
      → RecordsFull R
      → StateManager × D
      → StateManager × D
  receive cfg apply_records msg (s, store) =
      if is_duplicate s msg.node_id msg.seq
      then (s, store)
      else if not (should_apply_snapshot cfg s msg)
      then (commit_peer_seq msg.node_id msg.seq s, store)
      else elim (apply_records msg.records store) [
        | none ↦ (s, store)
        | some stored ↦ (commit_policy cfg msg (commit_peer_seq msg.node_id msg.seq s), stored)
      ]

-- MaxFrameBytes
abbrev pub max_frame_bytes : ℕ
max_frame_bytes = 67108864
