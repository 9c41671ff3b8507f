-- ===== src/Config/Keys.antt =====
-- config/config.go: the JSON of the configuration. An object is a map from its keys to their
-- values; the keys are those that the tags and UnmarshalJSON name, the renamed ones with `old` for
-- the older name, and others are ignored. The values and what json.Unmarshal and json.Marshal do
-- with them are parameters.
use dnsplane.Base.{Bool, List, Option}
use dnsplane.Base.Int.{ℤ}
use dnsplane.Text.{Text}
use dnsplane.Config.Types.{RecordsSourceConfig, DnsRecordSettings, LogConfig}

pub data Key : Type 0 where
  k_fallback_server_ip : Key
  k_fallback_server_port : Key
  k_timeout : Key
  k_port : Key
  k_apiport : Key
  k_api : Key
  k_api_auth_token : Key
  k_dns_bind : Key
  k_api_bind : Key
  k_api_tls_cert : Key
  k_api_tls_key : Key
  k_api_rate_limit_burst : Key
  k_dns_rate_limit_burst : Key
  k_dns_amplification_max_ratio : Key
  k_fallback_server_transport : Key
  k_dot_enabled : Key
  k_dot_bind : Key
  k_dot_port : Key
  k_dot_cert_file : Key
  k_dot_key_file : Key
  k_doh_enabled : Key
  k_doh_bind : Key
  k_doh_port : Key
  k_doh_path : Key
  k_doh_cert_file : Key
  k_doh_key_file : Key
  k_dns_response_limit_mode : Key
  k_dns_sliding_window_seconds : Key
  k_dns_max_responses_per_ip_window : Key
  k_dns_rrl_max_per_bucket : Key
  k_dns_rrl_window_seconds : Key
  k_dnssec_validate : Key
  k_dnssec_validate_strict : Key
  k_dnssec_trust_anchor_file : Key
  k_dnssec_sign_enabled : Key
  k_dnssec_sign_zone : Key
  k_dnssec_sign_key_file : Key
  k_dnssec_sign_private_key_file : Key
  k_dns_refuse_any : Key
  k_dns_max_edns_udp_payload : Key
  k_cache_records : Key
  k_local_records_enabled : Key
  k_full_stats : Key
  k_full_stats_dir : Key
  k_server_socket : Key
  k_server_tcp : Key
  k_file_locations : Key
  k_dns_record_settings : Key
  k_log : Key
  k_adblock_list_files : Key
  k_upstream_health_check_enabled : Key
  k_upstream_health_check_failures : Key
  k_upstream_health_check_interval_seconds : Key
  k_upstream_health_check_query_name : Key
  k_min_cache_ttl_seconds : Key
  k_stale_while_revalidate : Key
  k_cache_warm_enabled : Key
  k_cache_warm_interval_seconds : Key
  k_cache_compact_enabled : Key
  k_cache_compact_interval_seconds : Key
  k_stats_dashboard_enabled : Key
  k_dashboard_resolution_log_cap : Key
  k_pprof_enabled : Key
  k_pprof_listen : Key
  k_pretty_json : Key
  k_cluster_enabled : Key
  k_cluster_listen_addr : Key
  k_cluster_peers : Key
  k_cluster_auth_token : Key
  k_cluster_node_id : Key
  k_cluster_sync_interval_seconds : Key
  k_cluster_advertise_addr : Key
  k_cluster_replica_only : Key
  k_cluster_reject_local_writes : Key
  k_cluster_admin : Key
  k_cluster_admin_token : Key
  k_cluster_sync_policy : Key
  k_cluster_allowed_writer_node_ids : Key
  k_cluster_discovery_srv : Key
  k_cluster_discovery_interval_seconds : Key
  k_axfr_enabled : Key
  k_axfr_allowed_networks : Key
  k_old_dns_port : Key
  k_old_rest_port : Key
  k_old_api_enabled : Key
  k_old_client_socket_path : Key
  k_old_client_tcp_address : Key

-- The keys of "file_locations".
pub data FileKey : Type 0 where
  k_dnsservers k_dnsserver_file k_cache k_cache_file k_records_source k_dnsrecords : FileKey
  k_dnsrecords_file : FileKey

-- Values of JSON. The decoders of the lists and of the structs give what is left in an empty one;
-- that of the records source, which may be null, says whether it went well, too.
pub record Values {ℓ} (V : Type ℓ) : Type ℓ where
  pub of_text : Text → V
  pub of_bool : Bool → V
  pub of_int : ℤ → V
  pub of_texts : List Text → V
  pub of_file : (FileKey → Option V) → V
  pub of_source : Option RecordsSourceConfig → V
  pub of_settings : DnsRecordSettings → V
  pub of_log : LogConfig → V
  pub as_text : V → Option Text
  pub as_bool : V → Option Bool
  pub as_int : V → Option ℤ
  pub as_texts : V → List Text
  pub as_file : V → Option (FileKey → Option V)
  pub as_source : V → Bool × Option RecordsSourceConfig
  pub as_settings : V → DnsRecordSettings
  pub as_log : V → LogConfig

abbrev pub Raw {ℓ} : Type ℓ → Type ℓ
Raw V = Key → Option V
