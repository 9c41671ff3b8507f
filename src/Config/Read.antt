-- ===== src/Config/Read.antt =====
-- config/config.go: the two functions UnmarshalJSON, which accept the older names of keys and give
-- absent keys their defaults. A value that cannot be decoded leaves the field as it is.
use dnsplane.Base.{
  not, ◌||◌, Bool, true, false, [], Option, none, some, is_empty, is_some, if◌then◌else◌,
}
use dnsplane.Base.Int.{ℤ, pos}
use dnsplane.Text.{Text, codes, trim_space}
use dnsplane.Config.Types.{Config, FileLocations, RecordsSourceConfig, DnsRecordSettings, LogConfig}
use dnsplane.Config.Keys.{
  FileKey, Values, Raw, k_fallback_server_ip, k_fallback_server_port, k_timeout, k_port, k_apiport,
  k_api, k_api_auth_token, k_cache_records, k_local_records_enabled, k_full_stats, k_full_stats_dir,
  k_server_socket, k_server_tcp, k_file_locations, k_dns_record_settings, k_log,
  k_adblock_list_files, k_upstream_health_check_enabled, k_upstream_health_check_failures,
  k_upstream_health_check_interval_seconds, k_upstream_health_check_query_name,
  k_min_cache_ttl_seconds, k_stale_while_revalidate, k_cache_warm_enabled,
  k_cache_warm_interval_seconds, k_cache_compact_enabled, k_cache_compact_interval_seconds,
  k_stats_dashboard_enabled, k_dashboard_resolution_log_cap, k_pprof_enabled, k_pprof_listen,
  k_pretty_json, k_cluster_enabled, k_cluster_listen_addr, k_cluster_peers, k_cluster_auth_token,
  k_cluster_node_id, k_cluster_sync_interval_seconds, k_cluster_advertise_addr,
  k_cluster_replica_only, k_cluster_reject_local_writes, k_cluster_admin, k_cluster_admin_token,
  k_cluster_sync_policy, k_cluster_allowed_writer_node_ids, k_cluster_discovery_srv,
  k_cluster_discovery_interval_seconds, k_axfr_enabled, k_axfr_allowed_networks, k_old_dns_port,
  k_old_rest_port, k_old_api_enabled, k_old_client_socket_path, k_old_client_tcp_address,
  k_dnsservers, k_dnsserver_file, k_cache, k_cache_file, k_records_source, k_dnsrecords,
  k_dnsrecords_file,
}

-- What is read of a key: the value decoded, or the zero value.
unfoldable pub read {ℓ κ} : {V : Type ℓ} {A : Type κ} → (V → Option A) → A → Option V → A
read decode zero_value none = zero_value
read decode zero_value (some v) = elim (decode v) [ none ↦ zero_value | some a ↦ a ]

unfoldable pub read_struct {ℓ κ} : {V : Type ℓ} {A : Type κ} → (V → A) → A → Option V → A
read_struct decode zero_value none = zero_value
read_struct decode zero_value (some v) = decode v

-- getStr and getBool with two keys: the first that is there and can be decoded
unfoldable pub read_either {ℓ κ} :
    {V : Type ℓ} {A : Type κ} → (V → Option A) → A → Option V → Option V → A
read_either decode zero_value none second = read decode zero_value second
read_either decode zero_value (some v) second = elim (decode v) [
  | none ↦ read decode zero_value second
  | some a ↦ a
]

abbrev pub no_settings : DnsRecordSettings
no_settings = record {
  auto_build_ptr_from_a = false;
  forward_ptr_queries = false;
  add_updates_records = false;
}

abbrev pub no_log : LogConfig
no_log = record {
  dir = [];
  severity = [];
  rotation = [];
  rotation_size_mb = pos 0;
  rotation_days = pos 0;
}

abbrev pub no_files : FileLocations
no_files = record { dns_server_file = []; cache_file = []; records_source = none }

module _ {ℓ} {V : Type ℓ} (vals : Values V) where
  -- The records source from the older path of a file.
  unfoldable pub legacy_source : (FileKey → Option V) → Option RecordsSourceConfig
  legacy_source raw =
      let path = read_either vals.as_text [] (raw k_dnsrecords) (raw k_dnsrecords_file) in
      if is_empty path
      then none
      else some (record {
        type = codes "file";
        location = path;
        refresh_interval_seconds = pos 0;
        include_pattern = [];
        named_conf = [];
        watch = false;
      })

  -- The source of its own key, if it is there and not null; an error ends the function.
  unfoldable pub source_of : (FileKey → Option V) → Option V → Option RecordsSourceConfig
  source_of raw none = legacy_source raw
  source_of raw (some v) =
      let got = vals.as_source v in if not got.0 || is_some got.1 then got.1 else legacy_source raw

  -- UnmarshalJSON of FileLocations
  unfoldable pub read_files : Option (FileKey → Option V) → FileLocations
  read_files none = no_files
  read_files (some raw) = record {
    dns_server_file = read_either vals.as_text [] (raw k_dnsservers) (raw k_dnsserver_file);
    cache_file = read_either vals.as_text [] (raw k_cache) (raw k_cache_file);
    records_source = source_of raw (raw k_records_source);
  }

  unfoldable pub read_file_locations : Option V → FileLocations
  read_file_locations none = no_files
  read_file_locations (some v) = read_files (vals.as_file v)

  -- A key that is absent stands for true, or for a number.
  unfoldable pub read_bool_or_true : Option V → Bool
  read_bool_or_true none = true
  read_bool_or_true (some v) = read vals.as_bool false (some v)

  unfoldable pub read_int_or : ℤ → Option V → ℤ
  read_int_or absent none = absent
  read_int_or absent (some v) = read vals.as_int (pos 0) (some v)

  unfoldable pub discovery_interval : Text → Option V → ℤ
  discovery_interval srv none = if is_empty (trim_space srv) then pos 0 else pos 60
  discovery_interval srv (some v) = read vals.as_int (pos 0) (some v)

  -- UnmarshalJSON of Config, into an empty one
  unfoldable pub unmarshal : Raw V → Config
  unmarshal raw = record {
    fallback_server_ip = read vals.as_text [] (raw k_fallback_server_ip);
    fallback_server_port = read vals.as_text [] (raw k_fallback_server_port);
    timeout = read vals.as_int (pos 0) (raw k_timeout);
    dns_port = read_either vals.as_text [] (raw k_port) (raw k_old_dns_port);
    rest_port = read_either vals.as_text [] (raw k_apiport) (raw k_old_rest_port);
    api_enabled = read_either vals.as_bool false (raw k_api) (raw k_old_api_enabled);
    api_auth_token = read vals.as_text [] (raw k_api_auth_token);
    dns_bind = [];
    api_bind = [];
    api_tls_cert_file = [];
    api_tls_key_file = [];
    api_rate_limit_burst = pos 0;
    dns_rate_limit_burst = pos 0;
    dns_amplification_max_ratio = pos 0;
    fallback_server_transport = [];
    dot_enabled = false;
    dot_bind = [];
    dot_port = [];
    dot_cert_file = [];
    dot_key_file = [];
    doh_enabled = false;
    doh_bind = [];
    doh_port = [];
    doh_path = [];
    doh_cert_file = [];
    doh_key_file = [];
    dns_response_limit_mode = [];
    dns_sliding_window_seconds = pos 0;
    dns_max_responses_per_ip_window = pos 0;
    dns_rrl_max_per_bucket = pos 0;
    dns_rrl_window_seconds = pos 0;
    dnssec_validate = false;
    dnssec_validate_strict = false;
    dnssec_trust_anchor_file = [];
    dnssec_sign_enabled = false;
    dnssec_sign_zone = [];
    dnssec_sign_key_file = [];
    dnssec_sign_private_key_file = [];
    dns_refuse_any = false;
    dns_max_edns_udp_payload = pos 0;
    cache_records = read vals.as_bool false (raw k_cache_records);
    local_records_enabled = read_bool_or_true (raw k_local_records_enabled);
    full_stats = read vals.as_bool false (raw k_full_stats);
    full_stats_dir = read vals.as_text [] (raw k_full_stats_dir);
    client_socket_path =
        read_either vals.as_text [] (raw k_server_socket) (raw k_old_client_socket_path);
    client_tcp_address =
        read_either vals.as_text [] (raw k_server_tcp) (raw k_old_client_tcp_address);
    file_locations = read_file_locations (raw k_file_locations);
    dns_record_settings = read_struct vals.as_settings no_settings (raw k_dns_record_settings);
    log = read_struct vals.as_log no_log (raw k_log);
    adblock_list_files = read_struct vals.as_texts [] (raw k_adblock_list_files);
    upstream_health_check_enabled = read vals.as_bool false (raw k_upstream_health_check_enabled);
    upstream_health_check_failures =
        read vals.as_int (pos 0) (raw k_upstream_health_check_failures);
    upstream_health_check_interval_seconds =
        read vals.as_int (pos 0) (raw k_upstream_health_check_interval_seconds);
    upstream_health_check_query_name =
        read vals.as_text [] (raw k_upstream_health_check_query_name);
    min_cache_ttl_seconds = read vals.as_int (pos 0) (raw k_min_cache_ttl_seconds);
    stale_while_revalidate = read vals.as_bool false (raw k_stale_while_revalidate);
    cache_warm_enabled = read_bool_or_true (raw k_cache_warm_enabled);
    cache_warm_interval_seconds = read_int_or (pos 10) (raw k_cache_warm_interval_seconds);
    cache_compact_enabled = read_bool_or_true (raw k_cache_compact_enabled);
    cache_compact_interval_seconds = read_int_or (pos 1800) (raw k_cache_compact_interval_seconds);
    stats_dashboard_enabled = read_bool_or_true (raw k_stats_dashboard_enabled);
    dashboard_resolution_log_cap = read vals.as_int (pos 0) (raw k_dashboard_resolution_log_cap);
    pprof_enabled = read vals.as_bool false (raw k_pprof_enabled);
    pprof_listen = read vals.as_text [] (raw k_pprof_listen);
    pretty_json = read vals.as_bool false (raw k_pretty_json);
    cluster_enabled = read vals.as_bool false (raw k_cluster_enabled);
    cluster_listen_addr = read vals.as_text [] (raw k_cluster_listen_addr);
    cluster_peers = read_struct vals.as_texts [] (raw k_cluster_peers);
    cluster_auth_token = read vals.as_text [] (raw k_cluster_auth_token);
    cluster_node_id = read vals.as_text [] (raw k_cluster_node_id);
    cluster_sync_interval_seconds = read vals.as_int (pos 0) (raw k_cluster_sync_interval_seconds);
    cluster_advertise_addr = read vals.as_text [] (raw k_cluster_advertise_addr);
    cluster_replica_only = read vals.as_bool false (raw k_cluster_replica_only);
    cluster_reject_local_writes = read vals.as_bool false (raw k_cluster_reject_local_writes);
    cluster_admin = read vals.as_bool false (raw k_cluster_admin);
    cluster_admin_token = read vals.as_text [] (raw k_cluster_admin_token);
    cluster_sync_policy = read vals.as_text [] (raw k_cluster_sync_policy);
    cluster_allowed_writer_node_ids =
        read_struct vals.as_texts [] (raw k_cluster_allowed_writer_node_ids);
    cluster_discovery_srv = read vals.as_text [] (raw k_cluster_discovery_srv);
    cluster_discovery_interval_seconds =
        discovery_interval (read vals.as_text [] (raw k_cluster_discovery_srv))
          (raw k_cluster_discovery_interval_seconds);
    axfr_enabled = read vals.as_bool false (raw k_axfr_enabled);
    axfr_allowed_networks = read_struct vals.as_texts [] (raw k_axfr_allowed_networks);
  }
