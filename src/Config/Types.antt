-- ===== src/Config/Types.antt =====
-- config/config.go: the configuration. Its three settings that are floating point numbers are left
-- out. An absent pointer is none. The mode of the rotation is a text, as in the file.
use dnsplane.Base.{Bool, List, Option}
use dnsplane.Base.Int.{ℤ}
use dnsplane.Text.{Text}

pub record RecordsSourceConfig : Type 0 where
  pub type : Text
  pub location : Text
  pub refresh_interval_seconds : ℤ
  pub include_pattern : Text
  pub named_conf : Text
  pub watch : Bool

pub record FileLocations : Type 0 where
  pub dns_server_file : Text
  pub cache_file : Text
  pub records_source : Option RecordsSourceConfig

pub record DnsRecordSettings : Type 0 where
  pub auto_build_ptr_from_a : Bool
  pub forward_ptr_queries : Bool
  pub add_updates_records : Bool

pub record LogConfig : Type 0 where
  pub dir : Text
  pub severity : Text
  pub rotation : Text
  pub rotation_size_mb : ℤ
  pub rotation_days : ℤ

pub record Config : Type 0 where
  pub fallback_server_ip : Text
  pub fallback_server_port : Text
  pub timeout : ℤ
  pub dns_port : Text
  pub rest_port : Text
  pub api_enabled : Bool
  pub api_auth_token : Text
  pub dns_bind : Text
  pub api_bind : Text
  pub api_tls_cert_file : Text
  pub api_tls_key_file : Text
  pub api_rate_limit_burst : ℤ
  pub dns_rate_limit_burst : ℤ
  pub dns_amplification_max_ratio : ℤ
  pub fallback_server_transport : Text
  pub dot_enabled : Bool
  pub dot_bind : Text
  pub dot_port : Text
  pub dot_cert_file : Text
  pub dot_key_file : Text
  pub doh_enabled : Bool
  pub doh_bind : Text
  pub doh_port : Text
  pub doh_path : Text
  pub doh_cert_file : Text
  pub doh_key_file : Text
  pub dns_response_limit_mode : Text
  pub dns_sliding_window_seconds : ℤ
  pub dns_max_responses_per_ip_window : ℤ
  pub dns_rrl_max_per_bucket : ℤ
  pub dns_rrl_window_seconds : ℤ
  pub dnssec_validate : Bool
  pub dnssec_validate_strict : Bool
  pub dnssec_trust_anchor_file : Text
  pub dnssec_sign_enabled : Bool
  pub dnssec_sign_zone : Text
  pub dnssec_sign_key_file : Text
  pub dnssec_sign_private_key_file : Text
  pub dns_refuse_any : Bool
  pub dns_max_edns_udp_payload : ℤ
  pub cache_records : Bool
  pub local_records_enabled : Bool
  pub full_stats : Bool
  pub full_stats_dir : Text
  pub client_socket_path : Text
  pub client_tcp_address : Text
  pub file_locations : FileLocations
  pub dns_record_settings : DnsRecordSettings
  pub log : LogConfig
  pub adblock_list_files : List Text
  pub upstream_health_check_enabled : Bool
  pub upstream_health_check_failures : ℤ
  pub upstream_health_check_interval_seconds : ℤ
  pub upstream_health_check_query_name : Text
  pub min_cache_ttl_seconds : ℤ
  pub stale_while_revalidate : Bool
  pub cache_warm_enabled : Bool
  pub cache_warm_interval_seconds : ℤ
  pub cache_compact_enabled : Bool
  pub cache_compact_interval_seconds : ℤ
  pub stats_dashboard_enabled : Bool
  pub dashboard_resolution_log_cap : ℤ
  pub pprof_enabled : Bool
  pub pprof_listen : Text
  pub pretty_json : Bool
  pub cluster_enabled : Bool
  pub cluster_listen_addr : Text
  pub cluster_peers : List Text
  pub cluster_auth_token : Text
  pub cluster_node_id : Text
  pub cluster_sync_interval_seconds : ℤ
  pub cluster_advertise_addr : Text
  pub cluster_replica_only : Bool
  pub cluster_reject_local_writes : Bool
  pub cluster_admin : Bool
  pub cluster_admin_token : Text
  pub cluster_sync_policy : Text
  pub cluster_allowed_writer_node_ids : List Text
  pub cluster_discovery_srv : Text
  pub cluster_discovery_interval_seconds : ℤ
  pub axfr_enabled : Bool
  pub axfr_allowed_networks : List Text
