-- ===== src/Config/Defaults.antt =====
-- config/config.go: the configuration of a new installation, and the defaults that are filled in and
-- the limits that are kept whenever a configuration is read or saved. The operations of the
-- package path/filepath and the default path of the socket are parameters.
use dnsplane.Base.{
  Bool, true, false, ◌&&◌, ◌||◌, not, [], Option, none, some, is_empty, if◌then◌else◌,
}
use dnsplane.Base.Int.{ℤ, pos}
use dnsplane.Cluster.{lt_int}
use dnsplane.Text.{Text, codes, text_eq, trim_space, to_lower, has_prefix}
use dnsplane.Config.Types.{Config, FileLocations, RecordsSourceConfig, LogConfig}

pub record Paths : Type 0 where
  pub join : Text → Text → Text
  pub clean : Text → Text
  pub is_abs : Text → Bool
  pub default_socket_path : Text

-- `if s == "" { s = … }`
unfoldable pub or_text : Text → Text → Text
or_text absent t = if is_empty t then absent else t

-- `if n < 0 { n = 0 }`
unfoldable pub at_least_zero : ℤ → ℤ
at_least_zero n = if lt_int n (pos 0) then pos 0 else n

-- `if n <= 0 { n = … }`
unfoldable pub or_positive : ℤ → ℤ → ℤ
or_positive absent n = if lt_int (pos 0) n then n else absent

unfoldable pub compact_interval : ℤ → ℤ
compact_interval n =
    if not (lt_int (pos 0) n) then pos 1800 else if lt_int n (pos 60) then pos 60 else n

unfoldable pub log_cap : ℤ → ℤ
unfolding or_positive
log_cap n = let m = or_positive (pos 1000) n in if lt_int (pos 1000000) m then pos 1000000 else m

-- `RecordsSourceConfig{Type: RecordsSourceFile, Location: …}`
unfoldable pub file_source : Text → RecordsSourceConfig
file_source location = record {
  type = codes "file";
  location = location;
  refresh_interval_seconds = pos 0;
  include_pattern = [];
  named_conf = [];
  watch = false;
}

module _ (paths : Paths) where
  unfoldable pub is_system_config_dir : Text → Bool
  is_system_config_dir config_dir =
      let clean = paths.clean config_dir in
      text_eq clean (codes "/etc") || has_prefix clean (codes "/etc/")

  unfoldable pub default_log_dir : Text → Text
  default_log_dir base_dir =
      if is_system_config_dir base_dir
      then codes "/var/log/dnsplane"
      else paths.join base_dir (codes "log")

  unfoldable pub ensure_absolute_path : Text → Text → Text → Text
  ensure_absolute_path config_dir value fallback_name =
      let v = trim_space value in
      if is_empty v
      then paths.join config_dir fallback_name
      else if paths.is_abs v
      then paths.clean v
      else paths.join config_dir v

  -- The two files of the signing keys, which have no default.
  unfoldable pub key_path : Text → Text → Text
  key_path config_dir value =
      let k = trim_space value in
      if is_empty k
      then value
      else if paths.is_abs k
      then paths.clean k
      else paths.join config_dir k

  unfoldable pub full_stats_path : Text → Text → Text
  full_stats_path config_dir value =
      if is_empty value
      then paths.join config_dir (codes "fullstats")
      else ensure_absolute_path config_dir value (codes "fullstats")

  unfoldable pub default_source : Text → RecordsSourceConfig → RecordsSourceConfig
  default_source config_dir rs =
      if text_eq rs.type (codes "url") || text_eq rs.type (codes "git")
      then record rs { refresh_interval_seconds = or_positive (pos 60) rs.refresh_interval_seconds }
      else if text_eq (to_lower (trim_space rs.type)) (codes "bind_dir")
      then record rs {
        type = codes "bind_dir";
        location = ensure_absolute_path config_dir rs.location (codes "zones");
        named_conf =
            if is_empty (trim_space rs.named_conf)
            then rs.named_conf
            else ensure_absolute_path config_dir (trim_space rs.named_conf) [];
      }
      else record rs {
        type = codes "file";
        location = ensure_absolute_path config_dir rs.location (codes "dnsrecords.json");
      }

  unfoldable pub source_or_default : Text → Option RecordsSourceConfig → RecordsSourceConfig
  source_or_default config_dir none =
      default_source config_dir (file_source (paths.join config_dir (codes "dnsrecords.json")))
  source_or_default config_dir (some rs) = default_source config_dir rs

  unfoldable pub default_files : Text → FileLocations → FileLocations
  default_files config_dir fl = record {
    dns_server_file = ensure_absolute_path config_dir fl.dns_server_file (codes "dnsservers.json");
    cache_file = ensure_absolute_path config_dir fl.cache_file (codes "dnscache.json");
    records_source = some (source_or_default config_dir fl.records_source);
  }

  unfoldable pub default_log : Text → LogConfig → LogConfig
  default_log config_dir l = record {
    dir = or_text (default_log_dir config_dir) l.dir;
    severity = or_text (codes "none") l.severity;
    rotation = or_text (codes "size") l.rotation;
    rotation_size_mb = or_positive (pos 100) l.rotation_size_mb;
    rotation_days = or_positive (pos 7) l.rotation_days;
  }

  unfoldable pub apply_defaults : Text → Config → Config
  apply_defaults config_dir c = record c {
    fallback_server_ip = or_text (codes "1.1.1.1") c.fallback_server_ip;
    fallback_server_port = or_text (codes "53") c.fallback_server_port;
    dns_port = or_text (codes "53") c.dns_port;
    rest_port = or_text (codes "8080") c.rest_port;
    client_socket_path = or_text paths.default_socket_path c.client_socket_path;
    client_tcp_address = or_text (codes "0.0.0.0:8053") c.client_tcp_address;
    full_stats_dir = full_stats_path config_dir c.full_stats_dir;
    upstream_health_check_failures = at_least_zero c.upstream_health_check_failures;
    upstream_health_check_interval_seconds = at_least_zero c.upstream_health_check_interval_seconds;
    min_cache_ttl_seconds = at_least_zero c.min_cache_ttl_seconds;
    cache_warm_interval_seconds = or_positive (pos 10) c.cache_warm_interval_seconds;
    cache_compact_interval_seconds = compact_interval c.cache_compact_interval_seconds;
    dashboard_resolution_log_cap = log_cap c.dashboard_resolution_log_cap;
    cluster_sync_interval_seconds = at_least_zero c.cluster_sync_interval_seconds;
    cluster_discovery_interval_seconds = at_least_zero c.cluster_discovery_interval_seconds;
    api_rate_limit_burst = at_least_zero c.api_rate_limit_burst;
    dns_rate_limit_burst = at_least_zero c.dns_rate_limit_burst;
    dns_amplification_max_ratio = at_least_zero c.dns_amplification_max_ratio;
    dns_response_limit_mode =
        if is_empty (trim_space c.dns_response_limit_mode)
        then codes "sliding_window"
        else c.dns_response_limit_mode;
    dns_rrl_window_seconds = at_least_zero c.dns_rrl_window_seconds;
    dns_sliding_window_seconds = at_least_zero c.dns_sliding_window_seconds;
    pprof_listen =
        if c.pprof_enabled && is_empty (trim_space c.pprof_listen)
        then codes "127.0.0.1:6060"
        else c.pprof_listen;
    dot_port = if is_empty c.dot_port && c.dot_enabled then codes "853" else c.dot_port;
    doh_port = if is_empty c.doh_port && c.doh_enabled then codes "8443" else c.doh_port;
    doh_path = if is_empty c.doh_path && c.doh_enabled then codes "/dns-query" else c.doh_path;
    dnssec_sign_key_file = key_path config_dir c.dnssec_sign_key_file;
    dnssec_sign_private_key_file = key_path config_dir c.dnssec_sign_private_key_file;
    file_locations = default_files config_dir c.file_locations;
    log = default_log config_dir c.log;
  }

  unfoldable pub default_config : Text → Config
  default_config base_dir = record {
    fallback_server_ip = codes "1.1.1.1";
    fallback_server_port = codes "53";
    timeout = pos 2;
    dns_port = codes "53";
    rest_port = codes "8080";
    api_enabled = false;
    api_auth_token = [];
    dns_bind = [];
    api_bind = [];
    api_tls_cert_file = [];
    api_tls_key_file = [];
    api_rate_limit_burst = pos 0;
    dns_rate_limit_burst = pos 0;
    dns_amplification_max_ratio = pos 0;
    fallback_server_transport = [];
    dot_enabled = false;
    dot_bind = [];
    dot_port = [];
    dot_cert_file = [];
    dot_key_file = [];
    doh_enabled = false;
    doh_bind = [];
    doh_port = [];
    doh_path = [];
    doh_cert_file = [];
    doh_key_file = [];
    dns_response_limit_mode = [];
    dns_sliding_window_seconds = pos 0;
    dns_max_responses_per_ip_window = pos 0;
    dns_rrl_max_per_bucket = pos 0;
    dns_rrl_window_seconds = pos 0;
    dnssec_validate = false;
    dnssec_validate_strict = false;
    dnssec_trust_anchor_file = [];
    dnssec_sign_enabled = false;
    dnssec_sign_zone = [];
    dnssec_sign_key_file = [];
    dnssec_sign_private_key_file = [];
    dns_refuse_any = false;
    dns_max_edns_udp_payload = pos 0;
    cache_records = true;
    local_records_enabled = true;
    full_stats = false;
    full_stats_dir = paths.join base_dir (codes "fullstats");
    client_socket_path = paths.default_socket_path;
    client_tcp_address = codes "0.0.0.0:8053";
    file_locations = record {
      dns_server_file = paths.join base_dir (codes "dnsservers.json");
      cache_file = paths.join base_dir (codes "dnscache.json");
      records_source = some (file_source (paths.join base_dir (codes "dnsrecords.json")));
    };
    dns_record_settings = record {
      auto_build_ptr_from_a = true;
      forward_ptr_queries = false;
      add_updates_records = false;
    };
    log = record {
      dir = default_log_dir base_dir;
      severity = codes "none";
      rotation = codes "size";
      rotation_size_mb = pos 100;
      rotation_days = pos 7;
    };
    adblock_list_files = [];
    upstream_health_check_enabled = false;
    upstream_health_check_failures = pos 0;
    upstream_health_check_interval_seconds = pos 0;
    upstream_health_check_query_name = [];
    min_cache_ttl_seconds = pos 600;
    stale_while_revalidate = true;
    cache_warm_enabled = true;
    cache_warm_interval_seconds = pos 10;
    cache_compact_enabled = true;
    cache_compact_interval_seconds = pos 1800;
    stats_dashboard_enabled = true;
    dashboard_resolution_log_cap = pos 1000;
    pprof_enabled = false;
    pprof_listen = [];
    pretty_json = false;
    cluster_enabled = false;
    cluster_listen_addr = [];
    cluster_peers = [];
    cluster_auth_token = [];
    cluster_node_id = [];
    cluster_sync_interval_seconds = pos 0;
    cluster_advertise_addr = [];
    cluster_replica_only = false;
    cluster_reject_local_writes = false;
    cluster_admin = false;
    cluster_admin_token = [];
    cluster_sync_policy = [];
    cluster_allowed_writer_node_ids = [];
    cluster_discovery_srv = [];
    cluster_discovery_interval_seconds = pos 0;
    axfr_enabled = false;
    axfr_allowed_networks = [];
  }
