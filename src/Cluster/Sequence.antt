-- ===== src/Cluster/Sequence.antt =====
-- cluster/state.go and cluster/cluster.go: when a snapshot of a peer counts as one seen before.
use dnsplane.Base.{
  ℕ, ◌≡◌, refl, ap, true, false, ◌&&◌, ◌||◌, List, Option, arith, leb, inl, inr, ◌⊎◌, Option-cases,
  Bool-cases, is_empty, if◌then◌else◌,
}
use dnsplane.Text.{Text, text_eq}
use dnsplane.Text.Equality.{text_eq_iff, text_eq_refl}
use dnsplane.Text.Dict.{put, get-put}
use dnsplane.Cluster.{
  StateManager, peer_seq_of, floor_seq, is_duplicate, commit_peer_seq, commit_global_lww,
  commit_policy, Config, RecordsFull, SyncPolicy, should_apply_snapshot, receive,
  normalize_sync_policy, lww_per_node, primary_writer, global_lww,
}

peer_seq_of-put :
    (id k : Text) (n : ℕ) (m : List (Text × ℕ))
    → peer_seq_of k (put id n m) ≡ (if text_eq id k then n else peer_seq_of k m)
unfolding peer_seq_of
peer_seq_of-put id k n m = ground (arith, get-put id k n m)

-- Once a number of a node with a name that is not empty has been committed, a number of a node is
-- a duplicate exactly when it was one before or is of that node and at most the committed one, 0
-- counting as 1.
is_duplicate-commit_peer_seq :
    (s : StateManager) (id k : Text) (seq n : ℕ)
    → is_empty id ≡ false
    → is_duplicate (commit_peer_seq id seq s) k n
      ≡ is_duplicate s k n || (text_eq id k && leb (floor_seq n) (floor_seq seq))
unfolding is_duplicate commit_peer_seq
is_duplicate-commit_peer_seq s id k seq n h =
    ground (arith, text_eq_iff id k, peer_seq_of-put id k (floor_seq seq) s.peer_seq)

policy-cases : (p : SyncPolicy) → (p ≡ lww_per_node) ⊎ ((p ≡ primary_writer) ⊎ (p ≡ global_lww))
policy-cases lww_per_node = inl refl
policy-cases primary_writer = inr (inl refl)
policy-cases global_lww = inr (inr refl)

pub is_duplicate-commit_policy {ℓ} :
    {R : Type ℓ} (cfg : Config) (msg : RecordsFull R) (s : StateManager) (k : Text) (n : ℕ)
    → is_duplicate (commit_policy cfg msg s) k n ≡ is_duplicate s k n
unfolding commit_policy
is_duplicate-commit_policy cfg msg s k n =
    elim (policy-cases (normalize_sync_policy cfg.sync_policy)) [
      | inl e ↦ rw (commit_policy, e) refl
      | inr (inl e) ↦ rw (commit_policy, e) refl
      | inr (inr e) ↦ unfold commit_global_lww is_duplicate in rw (commit_policy, e) refl
    ]

pub after_commit :
    (s : StateManager) (id : Text) (seq : ℕ) → is_duplicate (commit_peer_seq id seq s) id seq ≡ true
unfolding is_duplicate commit_peer_seq
after_commit s id seq =
    ground (arith, text_eq_refl id, peer_seq_of-put id id (floor_seq seq) s.peer_seq)

-- A snapshot received twice in a row leaves the state and the records that its first receipt
-- leaves, whether it was applied, denied by the policy, a duplicate, or one whose records could
-- not be applied.
pub receive_idem {ℓ κ} :
    {R : Type ℓ} {D : Type κ} (cfg : Config) (apply_records : List R → D → Option D)
    (msg : RecordsFull R) (s : StateManager) (store : D)
    → receive cfg apply_records msg (receive cfg apply_records msg (s, store))
      ≡ receive cfg apply_records msg (s, store)
unfolding receive
receive_idem cfg apply_records msg s store =
    elim (Bool-cases (is_duplicate s msg.node_id msg.seq)) [
      | inl e ↦ rw (e, e) refl
      | inr n ↦ elim (Bool-cases (should_apply_snapshot cfg s msg)) [
        | inr m ↦ rw (n, m, after_commit s msg.node_id msg.seq) refl
        | inl e ↦ elim (Option-cases (apply_records msg.records store)) [
          | inl f ↦ ap (receive cfg apply_records msg) (rw (n, e, f) refl)
          | inr (stored, f) ↦
              rw
                (
                  n,
                  e,
                  f,
                  is_duplicate-commit_policy cfg msg (commit_peer_seq msg.node_id msg.seq s)
                      msg.node_id msg.seq,
                  after_commit s msg.node_id msg.seq,
                )
                refl
        ]
      ]
    ]
