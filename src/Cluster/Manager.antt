-- ===== src/Cluster/Manager.antt =====
-- cluster/cluster.go: the state of the manager, its peer addresses, the settings that a remote
-- admin sets, and what is shown of it. What the manager calls outside (the JSON, the clock, the SRV
-- query, the files of the store) is a record of parameters. The settings are those of config.Config
-- that are read here, but for the one that the store keeps.
use dnsplane.Base.{
  ℕ, suc, Bool, true, false, not, List, [], ◌∷◌, Option, none, some, length, is_empty,
  if◌then◌else◌,
}
use dnsplane.Base.Int.{ℤ, pos}
use dnsplane.Text.{Text, codes, text_eq, trim_space}
use dnsplane.Records.Types.{DnsRecord}
use dnsplane.Data.{DataStore, StoreError, apply_cluster_records, update_settings}
use dnsplane.Cluster.{Config, StateManager, SyncPolicy, normalize_sync_policy}
use dnsplane.Cluster.Wire.{Json, RecordsFullMessage, AdminConfigApplyMessage, type_records_full}
use dnsplane.Cluster.Peers.{PeerTracker, PeerStatus, merge_peer_addrs, snapshot}
use dnsplane.Cluster.Discovery.{Srv, lookup_srv_targets}

pub record Settings : Type 0 where
  pub enabled : Bool
  pub replica_only : Bool
  pub admin : Bool
  pub auth_token : Text
  pub admin_token : Text
  pub peers : List Text
  pub sync_interval_seconds : ℤ
  pub listen_addr : Text
  pub advertise_addr : Text
  pub discovery_srv : Text
  pub discovery_interval_seconds : ℤ
  pub policy : Config

-- Manager; `peers` is its peerTracker.
pub record Manager : Type 0 where
  pub state : StateManager
  pub dns : DataStore
  pub settings : Settings
  pub peers : PeerTracker
  pub effective_peers : List Text
  pub last_disc_srv : Text
  pub last_disc_err : Text
  pub last_disc_at : ℕ
  pub srv_resolved_count : ℕ

pub record Env {ℓ} (F : Type ℓ) : Type ℓ where
  pub json : Json F
  pub now : ℕ
  pub read_only : Bool
  pub saved : Bool
  pub lookup_srv : Text → Text → Text → Option Text × List Srv
  pub join_host_port : Text → Text → Text
  pub dial_address : Text → Text
  pub fingerprint : Text → Text

-- `if m.ReplicaOnly != nil { … }` and its like
unfoldable pub or_keep {ℓ} : {A : Type ℓ} → Option A → A → A
or_keep none old = old
or_keep (some new) old = new

unfoldable pub stored : Option StoreError × DataStore → Option DataStore
stored (none, d) = some d
stored (some e, d) = none

module _ {ℓ} {F : Type ℓ} (env : Env F) where
  -- m.dns.ApplyClusterRecords: the store then, or none for an error
  unfoldable pub apply_records : List DnsRecord → DataStore → Option DataStore
  unfolding stored
  apply_records rs d = stored (apply_cluster_records env.read_only env.saved rs d)

  unfoldable pub srv_targets : Settings → Option Text × List Text
  srv_targets cfg =
      let srv_name = trim_space cfg.discovery_srv in
      if is_empty srv_name
      then (none, [])
      else lookup_srv_targets env.join_host_port env.lookup_srv srv_name

  unfoldable pub refresh_effective_peers : Manager → Manager
  unfolding or_keep
  refresh_effective_peers m =
      let found = srv_targets m.settings in
      record m {
        effective_peers = merge_peer_addrs m.settings.peers found.1;
        last_disc_srv = trim_space m.settings.discovery_srv;
        last_disc_err = or_keep found.0 [];
        last_disc_at = env.now;
        srv_resolved_count = length found.1;
      }

  -- `s := cfg` and the fields that the message sets
  unfoldable pub updated_settings : AdminConfigApplyMessage → Settings → Settings
  unfolding or_keep
  updated_settings msg cfg = record cfg {
    auth_token = if is_empty msg.auth_token then cfg.auth_token else msg.auth_token;
    peers = or_keep msg.peers cfg.peers;
    replica_only = or_keep msg.replica_only cfg.replica_only;
    admin = or_keep msg.admin_local cfg.admin;
    sync_interval_seconds = or_keep msg.sync_interval cfg.sync_interval_seconds;
  }

  -- UpdateSettings of the store: the one setting of the message that it keeps
  unfoldable pub updated_store : AdminConfigApplyMessage → DataStore → DataStore
  unfolding or_keep
  updated_store msg d =
      update_settings (or_keep msg.reject_local d.cluster_reject_local_writes)
        d.resolver_data.local_records_enabled d.resolver_data.cache_enabled
        d.resolver_data.stale_while_revalidate d

  -- applyAdminConfigFromMessage: the text of the error, if any
  unfoldable pub apply_admin_config : AdminConfigApplyMessage → Manager → Option Text × Manager
  apply_admin_config msg m =
      if is_empty (trim_space m.settings.admin_token)
      then (some (codes "remote admin disabled (empty cluster_admin_token)"), m)
      else if not (text_eq msg.admin_token m.settings.admin_token)
      then (some (codes "invalid admin token"), m)
      else (
        none,
        refresh_effective_peers (record m {
          settings = updated_settings msg m.settings;
          dns = updated_store msg m.dns;
        }),
      )

  -- The message that pushes and answers to pulls carry, with the number given.
  unfoldable pub full_message : ℕ → Manager → RecordsFullMessage
  full_message seq m = record {
    type = type_records_full;
    body = record {
      node_id = m.state.node_id;
      seq = seq;
      timestamp = pos env.now;
      records = m.dns.resolver_data.dns_records;
    };
  }

unfoldable pub trimmed_peers : List Text → List Text
trimmed_peers [] = []
trimmed_peers (p ∷ ps) =
    let rest = trimmed_peers ps in if is_empty (trim_space p) then rest else trim_space p ∷ rest

unfoldable pub list_peer_targets : Settings → Manager → List Text
list_peer_targets cfg m =
    if is_empty m.effective_peers then trimmed_peers cfg.peers else m.effective_peers

unfoldable pub count_non_empty_strings : List Text → ℕ
count_non_empty_strings [] = 0
count_non_empty_strings (s ∷ ss) =
    let n = count_non_empty_strings ss in if is_empty (trim_space s) then n else suc n

unfoldable pub listen_address : Settings → Text
listen_address cfg =
    let addr = trim_space cfg.listen_addr in if is_empty addr then codes ":7946" else addr

-- The time of the last discovery, which is formatted for display, is left out.
pub record StatusSnapshot : Type 0 where
  pub enabled : Bool
  pub node_id : Text
  pub listen_addr : Text
  pub advertise_addr : Text
  pub replica_only : Bool
  pub cluster_admin : Bool
  pub peers : List PeerStatus
  pub local_seq : ℕ
  pub cluster_port_guess : Text
  pub sync_policy : Option SyncPolicy
  pub allowed_writer_node_ids : List Text
  pub last_global_lww_unix : ℤ
  pub last_global_lww_node_id : Text
  pub cluster_discovery_srv : Text
  pub cluster_discovery_interval_sec : ℤ
  pub discovery_last_error : Text
  pub static_peer_count : ℕ
  pub srv_peer_count : ℕ
  pub effective_peer_count : ℕ

-- `StatusSnapshot{Enabled: false}`
unfoldable disabled_snapshot : StatusSnapshot
disabled_snapshot = record {
  enabled = false;
  node_id = [];
  listen_addr = [];
  advertise_addr = [];
  replica_only = false;
  cluster_admin = false;
  peers = [];
  local_seq = 0;
  cluster_port_guess = [];
  sync_policy = none;
  allowed_writer_node_ids = [];
  last_global_lww_unix = pos 0;
  last_global_lww_node_id = [];
  cluster_discovery_srv = [];
  cluster_discovery_interval_sec = pos 0;
  discovery_last_error = [];
  static_peer_count = 0;
  srv_peer_count = 0;
  effective_peer_count = 0;
}

module _ {ℓ} {F : Type ℓ} (env : Env F) where
  unfoldable pub advertised : Settings → Text
  advertised cfg =
      let adv = trim_space cfg.advertise_addr in
      if is_empty adv then env.dial_address (listen_address cfg) else adv

  unfoldable pub status_snapshot : Manager → StatusSnapshot
  unfolding disabled_snapshot
  status_snapshot m =
      let cfg = m.settings in
      if not cfg.enabled then disabled_snapshot else record {
        enabled = true;
        node_id = m.state.node_id;
        listen_addr = listen_address cfg;
        advertise_addr = advertised cfg;
        replica_only = cfg.replica_only;
        cluster_admin = cfg.admin;
        peers = snapshot m.peers (list_peer_targets cfg m);
        local_seq = m.state.local_seq;
        cluster_port_guess = advertised cfg;
        sync_policy = some (normalize_sync_policy cfg.policy.sync_policy);
        allowed_writer_node_ids = cfg.policy.allowed_writer_node_ids;
        last_global_lww_unix = m.state.last_global_lww_unix;
        last_global_lww_node_id = m.state.last_global_lww_node_id;
        cluster_discovery_srv = trim_space cfg.discovery_srv;
        cluster_discovery_interval_sec = cfg.discovery_interval_seconds;
        discovery_last_error = m.last_disc_err;
        static_peer_count = count_non_empty_strings cfg.peers;
        srv_peer_count = m.srv_resolved_count;
        effective_peer_count = length (list_peer_targets cfg m);
      }

  -- JoinInfo: the node's name, the listening address, the one to dial, the fingerprint of the token
  unfoldable pub join_info : Manager → Text × Text × Text × Text
  join_info m =
      let tok = trim_space m.settings.auth_token in
      (
        m.state.node_id,
        listen_address m.settings,
        advertised m.settings,
        if is_empty tok then [] else env.fingerprint tok,
      )
