-- ===== src/Config/Write.antt =====
-- config/config.go: what writeConfig writes: the object that json.MarshalIndent makes of the
-- configuration by the tags of its fields, which leave out a zero value where they say "omitempty".
use dnsplane.Base.{Bool, true, List, Option, none, some, is_empty, if◌then◌else◌}
use dnsplane.Base.Int.{ℤ}
use dnsplane.Text.{Text}
use dnsplane.Cluster.{is_zero}
use dnsplane.Config.Types.{Config, FileLocations}
use dnsplane.Config.Keys.{
  FileKey, Values, Raw, k_dnsservers, k_dnsserver_file, k_cache, k_cache_file, k_records_source,
  k_dnsrecords, k_dnsrecords_file, k_fallback_server_ip, k_fallback_server_port, k_timeout, k_port,
  k_apiport, k_api, k_api_auth_token, k_dns_bind, k_api_bind, k_api_tls_cert, k_api_tls_key,
  k_api_rate_limit_burst, k_dns_rate_limit_burst, k_dns_amplification_max_ratio,
  k_fallback_server_transport, k_dot_enabled, k_dot_bind, k_dot_port, k_dot_cert_file,
  k_dot_key_file, k_doh_enabled, k_doh_bind, k_doh_port, k_doh_path, k_doh_cert_file,
  k_doh_key_file, k_dns_response_limit_mode, k_dns_sliding_window_seconds,
  k_dns_max_responses_per_ip_window, k_dns_rrl_max_per_bucket, k_dns_rrl_window_seconds,
  k_dnssec_validate, k_dnssec_validate_strict, k_dnssec_trust_anchor_file, k_dnssec_sign_enabled,
  k_dnssec_sign_zone, k_dnssec_sign_key_file, k_dnssec_sign_private_key_file, k_dns_refuse_any,
  k_dns_max_edns_udp_payload, k_cache_records, k_local_records_enabled, k_full_stats,
  k_full_stats_dir, k_server_socket, k_server_tcp, k_file_locations, k_dns_record_settings, k_log,
  k_adblock_list_files, k_upstream_health_check_enabled, k_upstream_health_check_failures,
  k_upstream_health_check_interval_seconds, k_upstream_health_check_query_name,
  k_min_cache_ttl_seconds, k_stale_while_revalidate, k_cache_warm_enabled,
  k_cache_warm_interval_seconds, k_cache_compact_enabled, k_cache_compact_interval_seconds,
  k_stats_dashboard_enabled, k_dashboard_resolution_log_cap, k_pprof_enabled, k_pprof_listen,
  k_pretty_json, k_cluster_enabled, k_cluster_listen_addr, k_cluster_peers, k_cluster_auth_token,
  k_cluster_node_id, k_cluster_sync_interval_seconds, k_cluster_advertise_addr,
  k_cluster_replica_only, k_cluster_reject_local_writes, k_cluster_admin, k_cluster_admin_token,
  k_cluster_sync_policy, k_cluster_allowed_writer_node_ids, k_cluster_discovery_srv,
  k_cluster_discovery_interval_seconds, k_axfr_enabled, k_axfr_allowed_networks, k_old_dns_port,
  k_old_rest_port, k_old_api_enabled, k_old_client_socket_path, k_old_client_tcp_address,
}

module _ {ℓ} {V : Type ℓ} (vals : Values V) where
  unfoldable pub omit_text : Text → Option V
  omit_text t = if is_empty t then none else some (vals.of_text t)

  unfoldable pub omit_int : ℤ → Option V
  omit_int n = if is_zero n then none else some (vals.of_int n)

  unfoldable pub omit_bool : Bool → Option V
  omit_bool b = if b then some (vals.of_bool true) else none

  unfoldable pub omit_texts : List Text → Option V
  omit_texts ts = if is_empty ts then none else some (vals.of_texts ts)

  unfoldable pub write_files : FileLocations → FileKey → Option V
  write_files fl k_dnsservers = some (vals.of_text fl.dns_server_file)
  write_files fl k_dnsserver_file = none
  write_files fl k_cache = some (vals.of_text fl.cache_file)
  write_files fl k_cache_file = none
  write_files fl k_records_source = some (vals.of_source fl.records_source)
  write_files fl k_dnsrecords = none
  write_files fl k_dnsrecords_file = none

  unfoldable pub marshal : Config → Raw V
  marshal c k_fallback_server_ip = some (vals.of_text c.fallback_server_ip)
  marshal c k_fallback_server_port = some (vals.of_text c.fallback_server_port)
  marshal c k_timeout = some (vals.of_int c.timeout)
  marshal c k_port = some (vals.of_text c.dns_port)
  marshal c k_apiport = some (vals.of_text c.rest_port)
  marshal c k_api = some (vals.of_bool c.api_enabled)
  marshal c k_api_auth_token = omit_text c.api_auth_token
  marshal c k_dns_bind = omit_text c.dns_bind
  marshal c k_api_bind = omit_text c.api_bind
  marshal c k_api_tls_cert = omit_text c.api_tls_cert_file
  marshal c k_api_tls_key = omit_text c.api_tls_key_file
  marshal c k_api_rate_limit_burst = omit_int c.api_rate_limit_burst
  marshal c k_dns_rate_limit_burst = omit_int c.dns_rate_limit_burst
  marshal c k_dns_amplification_max_ratio = omit_int c.dns_amplification_max_ratio
  marshal c k_fallback_server_transport = omit_text c.fallback_server_transport
  marshal c k_dot_enabled = omit_bool c.dot_enabled
  marshal c k_dot_bind = omit_text c.dot_bind
  marshal c k_dot_port = omit_text c.dot_port
  marshal c k_dot_cert_file = omit_text c.dot_cert_file
  marshal c k_dot_key_file = omit_text c.dot_key_file
  marshal c k_doh_enabled = omit_bool c.doh_enabled
  marshal c k_doh_bind = omit_text c.doh_bind
  marshal c k_doh_port = omit_text c.doh_port
  marshal c k_doh_path = omit_text c.doh_path
  marshal c k_doh_cert_file = omit_text c.doh_cert_file
  marshal c k_doh_key_file = omit_text c.doh_key_file
  marshal c k_dns_response_limit_mode = omit_text c.dns_response_limit_mode
  marshal c k_dns_sliding_window_seconds = omit_int c.dns_sliding_window_seconds
  marshal c k_dns_max_responses_per_ip_window = omit_int c.dns_max_responses_per_ip_window
  marshal c k_dns_rrl_max_per_bucket = omit_int c.dns_rrl_max_per_bucket
  marshal c k_dns_rrl_window_seconds = omit_int c.dns_rrl_window_seconds
  marshal c k_dnssec_validate = omit_bool c.dnssec_validate
  marshal c k_dnssec_validate_strict = omit_bool c.dnssec_validate_strict
  marshal c k_dnssec_trust_anchor_file = omit_text c.dnssec_trust_anchor_file
  marshal c k_dnssec_sign_enabled = omit_bool c.dnssec_sign_enabled
  marshal c k_dnssec_sign_zone = omit_text c.dnssec_sign_zone
  marshal c k_dnssec_sign_key_file = omit_text c.dnssec_sign_key_file
  marshal c k_dnssec_sign_private_key_file = omit_text c.dnssec_sign_private_key_file
  marshal c k_dns_refuse_any = omit_bool c.dns_refuse_any
  marshal c k_dns_max_edns_udp_payload = omit_int c.dns_max_edns_udp_payload
  marshal c k_cache_records = some (vals.of_bool c.cache_records)
  marshal c k_local_records_enabled = omit_bool c.local_records_enabled
  marshal c k_full_stats = some (vals.of_bool c.full_stats)
  marshal c k_full_stats_dir = some (vals.of_text c.full_stats_dir)
  marshal c k_server_socket = some (vals.of_text c.client_socket_path)
  marshal c k_server_tcp = some (vals.of_text c.client_tcp_address)
  marshal c k_file_locations = some (vals.of_file (write_files c.file_locations))
  marshal c k_dns_record_settings = some (vals.of_settings c.dns_record_settings)
  marshal c k_log = some (vals.of_log c.log)
  marshal c k_adblock_list_files = omit_texts c.adblock_list_files
  marshal c k_upstream_health_check_enabled = omit_bool c.upstream_health_check_enabled
  marshal c k_upstream_health_check_failures = omit_int c.upstream_health_check_failures
  marshal c k_upstream_health_check_interval_seconds =
      omit_int c.upstream_health_check_interval_seconds
  marshal c k_upstream_health_check_query_name = omit_text c.upstream_health_check_query_name
  marshal c k_min_cache_ttl_seconds = omit_int c.min_cache_ttl_seconds
  marshal c k_stale_while_revalidate = omit_bool c.stale_while_revalidate
  marshal c k_cache_warm_enabled = omit_bool c.cache_warm_enabled
  marshal c k_cache_warm_interval_seconds = omit_int c.cache_warm_interval_seconds
  marshal c k_cache_compact_enabled = omit_bool c.cache_compact_enabled
  marshal c k_cache_compact_interval_seconds = omit_int c.cache_compact_interval_seconds
  marshal c k_stats_dashboard_enabled = omit_bool c.stats_dashboard_enabled
  marshal c k_dashboard_resolution_log_cap = omit_int c.dashboard_resolution_log_cap
  marshal c k_pprof_enabled = omit_bool c.pprof_enabled
  marshal c k_pprof_listen = omit_text c.pprof_listen
  marshal c k_pretty_json = omit_bool c.pretty_json
  marshal c k_cluster_enabled = omit_bool c.cluster_enabled
  marshal c k_cluster_listen_addr = omit_text c.cluster_listen_addr
  marshal c k_cluster_peers = omit_texts c.cluster_peers
  marshal c k_cluster_auth_token = omit_text c.cluster_auth_token
  marshal c k_cluster_node_id = omit_text c.cluster_node_id
  marshal c k_cluster_sync_interval_seconds = omit_int c.cluster_sync_interval_seconds
  marshal c k_cluster_advertise_addr = omit_text c.cluster_advertise_addr
  marshal c k_cluster_replica_only = omit_bool c.cluster_replica_only
  marshal c k_cluster_reject_local_writes = omit_bool c.cluster_reject_local_writes
  marshal c k_cluster_admin = omit_bool c.cluster_admin
  marshal c k_cluster_admin_token = omit_text c.cluster_admin_token
  marshal c k_cluster_sync_policy = omit_text c.cluster_sync_policy
  marshal c k_cluster_allowed_writer_node_ids = omit_texts c.cluster_allowed_writer_node_ids
  marshal c k_cluster_discovery_srv = omit_text c.cluster_discovery_srv
  marshal c k_cluster_discovery_interval_seconds = omit_int c.cluster_discovery_interval_seconds
  marshal c k_axfr_enabled = omit_bool c.axfr_enabled
  marshal c k_axfr_allowed_networks = omit_texts c.axfr_allowed_networks
  marshal c k_old_dns_port = none
  marshal c k_old_rest_port = none
  marshal c k_old_api_enabled = none
  marshal c k_old_client_socket_path = none
  marshal c k_old_client_tcp_address = none
