-- ===== src/Cluster/Applied.antt =====
-- cluster/cluster.go and data/data.go: what a snapshot does to the store.
use dnsplane.Base.{
  ◌≡◌, refl, sym, ap, ◌∙◌, true, false, List, none, some, Bool-cases, Option-cases, inl, inr,
}
use mathlib.Core.Option.{some-injective}
use dnsplane.Records.Types.{DnsRecord}
use dnsplane.Data.{DataStore, apply_cluster_records, store_records, set_records, canonical_records}
use dnsplane.Cluster.{
  Config, StateManager, RecordsFull, receive, is_duplicate, should_apply_snapshot,
}
use dnsplane.Cluster.Manager.{Env, apply_records, stored}

module _ {ℓ} {F : Type ℓ} (env : Env F) where
  pub apply_records-writable :
      (rs : List DnsRecord) (d : DataStore)
      → env.read_only ≡ false
      → apply_records env rs d ≡ some (set_records (canonical_records rs) d)
  unfolding apply_records apply_cluster_records stored store_records
  apply_records-writable rs d h =
      rw h (elim (Bool-cases env.saved) [ inl t ↦ rw t refl | inr t ↦ rw t refl ])

  pub apply_records-read_only :
      (rs : List DnsRecord) (d : DataStore) → env.read_only ≡ true → apply_records env rs d ≡ none
  unfolding apply_records apply_cluster_records stored
  apply_records-read_only rs d h = rw h refl

  apply_records-reject :
      (rs : List DnsRecord) (d e : DataStore)
      → apply_records env rs d ≡ some e
      → e.cluster_reject_local_writes ≡ d.cluster_reject_local_writes
  apply_records-reject rs d e h = elim (Bool-cases env.read_only) [
    | inl r ↦ let k = apply_records-read_only rs d r in absurd cc
    | inr n ↦
        let eq : e ≡ set_records (canonical_records rs) d =
          some-injective _ _ (sym h ∙ apply_records-writable rs d n) in
        ap (λ (x : DataStore). x.cluster_reject_local_writes) eq ∙ (unfold set_records in refl)
  ]

  -- A snapshot does not change whether local writes are rejected.
  pub receive-reject :
      (cfg : Config) (msg : RecordsFull DnsRecord) (s : StateManager) (d : DataStore)
      → (receive cfg (apply_records env) msg (s, d)).1.cluster_reject_local_writes
        ≡ d.cluster_reject_local_writes
  unfolding receive
  receive-reject cfg msg s d = elim (Bool-cases (is_duplicate s msg.node_id msg.seq)) [
    | inl e ↦ rw e refl
    | inr n ↦ elim (Bool-cases (should_apply_snapshot cfg s msg)) [
      | inr k ↦ rw (n, k) refl
      | inl e ↦ elim (Option-cases (apply_records env msg.records d)) [
        | inl a ↦ rw (n, e, a) refl
        | inr (x, a) ↦ rw (n, e, a) (apply_records-reject msg.records d x a)
      ]
    ]
  ]
