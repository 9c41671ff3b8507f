-- ===== src/Config/Carried.antt =====
-- config/config.go: what of a configuration is there again when it is read from the file to which it
-- has been written, and what the values of JSON have to do for it.
use dnsplane.Base.{◌≡◌, Bool, true, false, List, [], some, is_empty, if◌then◌else◌}
use dnsplane.Base.Int.{ℤ, pos}
use dnsplane.Cluster.{is_zero}
use dnsplane.Text.{Text, trim_space}
use dnsplane.Config.Types.{Config}
use dnsplane.Config.Keys.{Values}
use dnsplane.Config.Write.{write_files}

module _ {ℓ} {V : Type ℓ} (vals : Values V) where
  -- A value is decoded as what it was encoded from.
  abbrev pub CarriesText : Text → Type 0
  CarriesText t = vals.as_text (vals.of_text t) ≡ some t

  abbrev pub CarriesInt : ℤ → Type 0
  CarriesInt n = vals.as_int (vals.of_int n) ≡ some n

  abbrev pub CarriesTexts : List Text → Type 0
  CarriesTexts ts = vals.as_texts (vals.of_texts ts) ≡ ts

  -- The values of the configuration that UnmarshalJSON reads are decoded as they were encoded.
  pub record Carries (c : Config) : Type ℓ where
    pub bools : (b : Bool) → vals.as_bool (vals.of_bool b) ≡ some b
    pub fallback_server_ip : CarriesText c.fallback_server_ip
    pub fallback_server_port : CarriesText c.fallback_server_port
    pub timeout : CarriesInt c.timeout
    pub dns_port : CarriesText c.dns_port
    pub rest_port : CarriesText c.rest_port
    pub api_auth_token : CarriesText c.api_auth_token
    pub full_stats_dir : CarriesText c.full_stats_dir
    pub client_socket_path : CarriesText c.client_socket_path
    pub client_tcp_address : CarriesText c.client_tcp_address
    pub file_locations :
        vals.as_file (vals.of_file (write_files vals c.file_locations))
        ≡ some (write_files vals c.file_locations)
    pub dns_record_settings :
        vals.as_settings (vals.of_settings c.dns_record_settings) ≡ c.dns_record_settings
    pub log : vals.as_log (vals.of_log c.log) ≡ c.log
    pub adblock_list_files : CarriesTexts c.adblock_list_files
    pub upstream_health_check_failures : CarriesInt c.upstream_health_check_failures
    pub upstream_health_check_interval_seconds : CarriesInt c.upstream_health_check_interval_seconds
    pub upstream_health_check_query_name : CarriesText c.upstream_health_check_query_name
    pub min_cache_ttl_seconds : CarriesInt c.min_cache_ttl_seconds
    pub cache_warm_interval_seconds : CarriesInt c.cache_warm_interval_seconds
    pub cache_compact_interval_seconds : CarriesInt c.cache_compact_interval_seconds
    pub dashboard_resolution_log_cap : CarriesInt c.dashboard_resolution_log_cap
    pub pprof_listen : CarriesText c.pprof_listen
    pub cluster_listen_addr : CarriesText c.cluster_listen_addr
    pub cluster_peers : CarriesTexts c.cluster_peers
    pub cluster_auth_token : CarriesText c.cluster_auth_token
    pub cluster_node_id : CarriesText c.cluster_node_id
    pub cluster_sync_interval_seconds : CarriesInt c.cluster_sync_interval_seconds
    pub cluster_advertise_addr : CarriesText c.cluster_advertise_addr
    pub cluster_admin_token : CarriesText c.cluster_admin_token
    pub cluster_sync_policy : CarriesText c.cluster_sync_policy
    pub cluster_allowed_writer_node_ids : CarriesTexts c.cluster_allowed_writer_node_ids
    pub cluster_discovery_srv : CarriesText c.cluster_discovery_srv
    pub cluster_discovery_interval_seconds : CarriesInt c.cluster_discovery_interval_seconds
    pub axfr_allowed_networks : CarriesTexts c.axfr_allowed_networks
    pub dns_server_file : CarriesText c.file_locations.dns_server_file
    pub cache_file : CarriesText c.file_locations.cache_file
    pub records_source :
        vals.as_source (vals.of_source c.file_locations.records_source)
        ≡ (true, c.file_locations.records_source)

unfoldable pub interval_or : ℤ → ℤ → ℤ
interval_or absent n = if is_zero n then absent else n

-- The configuration that is read: the settings that UnmarshalJSON does not name are at their zero
-- values, those with a default in place of an absent key are at it if they were zero, and the
-- others are as they were.
unfoldable pub reread : Config → Config
reread c = record c {
  dns_bind = [];
  api_bind = [];
  api_tls_cert_file = [];
  api_tls_key_file = [];
  api_rate_limit_burst = pos 0;
  dns_rate_limit_burst = pos 0;
  dns_amplification_max_ratio = pos 0;
  fallback_server_transport = [];
  dot_enabled = false;
  dot_bind = [];
  dot_port = [];
  dot_cert_file = [];
  dot_key_file = [];
  doh_enabled = false;
  doh_bind = [];
  doh_port = [];
  doh_path = [];
  doh_cert_file = [];
  doh_key_file = [];
  dns_response_limit_mode = [];
  dns_sliding_window_seconds = pos 0;
  dns_max_responses_per_ip_window = pos 0;
  dns_rrl_max_per_bucket = pos 0;
  dns_rrl_window_seconds = pos 0;
  dnssec_validate = false;
  dnssec_validate_strict = false;
  dnssec_trust_anchor_file = [];
  dnssec_sign_enabled = false;
  dnssec_sign_zone = [];
  dnssec_sign_key_file = [];
  dnssec_sign_private_key_file = [];
  dns_refuse_any = false;
  dns_max_edns_udp_payload = pos 0;
  local_records_enabled = true;
  cache_warm_enabled = true;
  cache_warm_interval_seconds = interval_or (pos 10) c.cache_warm_interval_seconds;
  cache_compact_enabled = true;
  cache_compact_interval_seconds = interval_or (pos 1800) c.cache_compact_interval_seconds;
  stats_dashboard_enabled = true;
  cluster_discovery_interval_seconds =
      interval_or (if is_empty (trim_space c.cluster_discovery_srv) then pos 0 else pos 60)
        c.cluster_discovery_interval_seconds;
}
