-- ===== src/Config/RoundTrip.antt =====
-- config/config.go: a configuration that is read from the file to which it has been written.
use dnsplane.Base.{◌≡◌, refl, ap, ◌∙◌, false, [], Option, none, some, Bool-cases, inl, inr}
use dnsplane.Base.Int.{pos}
use dnsplane.Text.{Text}
use dnsplane.Config.Types.{Config}
use dnsplane.Config.Keys.{Values, Key}
use dnsplane.Config.Read.{read_struct, unmarshal}
use dnsplane.Config.Write.{marshal}
use dnsplane.Config.Carried.{Carries, reread}
use dnsplane.Config.Fields.{
  read-some, read_either-some, read-omit_text, read-omit_int, read-omit_bool, read-omit_texts,
  read_bool_or_true-omit_bool, read_int_or-omit_int, read_file_locations-write, discovery_srv-then,
}
use dnsplane.Config.Defaults.{Paths, apply_defaults}
use dnsplane.Config.Load.{Disk, save, read_at, parsed, ok, err, not_made, not_written, object}

module _ {ℓ} {V : Type ℓ} (vals : Values V) where
  unmarshal-marshal : (c : Config) → Carries vals c → unmarshal vals (marshal vals c) ≡ reread c
  unfolding unmarshal marshal reread read_struct
  unmarshal-marshal c h = λ i. record {
    fallback_server_ip =
        read-some vals vals.as_text [] c.fallback_server_ip (vals.of_text c.fallback_server_ip)
          h.fallback_server_ip i;
    fallback_server_port =
        read-some vals vals.as_text [] c.fallback_server_port (vals.of_text c.fallback_server_port)
          h.fallback_server_port i;
    timeout = read-some vals vals.as_int (pos 0) c.timeout (vals.of_int c.timeout) h.timeout i;
    dns_port =
        read_either-some vals vals.as_text [] c.dns_port (vals.of_text c.dns_port) none h.dns_port
          i;
    rest_port =
        read_either-some vals vals.as_text [] c.rest_port (vals.of_text c.rest_port) none
          h.rest_port i;
    api_enabled =
        read_either-some vals vals.as_bool false c.api_enabled (vals.of_bool c.api_enabled) none
          (h.bools c.api_enabled) i;
    api_auth_token = read-omit_text vals c.api_auth_token h.api_auth_token i;
    dns_bind = [];
    api_bind = [];
    api_tls_cert_file = [];
    api_tls_key_file = [];
    api_rate_limit_burst = pos 0;
    dns_rate_limit_burst = pos 0;
    dns_amplification_max_ratio = pos 0;
    fallback_server_transport = [];
    dot_enabled = false;
    dot_bind = [];
    dot_port = [];
    dot_cert_file = [];
    dot_key_file = [];
    doh_enabled = false;
    doh_bind = [];
    doh_port = [];
    doh_path = [];
    doh_cert_file = [];
    doh_key_file = [];
    dns_response_limit_mode = [];
    dns_sliding_window_seconds = pos 0;
    dns_max_responses_per_ip_window = pos 0;
    dns_rrl_max_per_bucket = pos 0;
    dns_rrl_window_seconds = pos 0;
    dnssec_validate = false;
    dnssec_validate_strict = false;
    dnssec_trust_anchor_file = [];
    dnssec_sign_enabled = false;
    dnssec_sign_zone = [];
    dnssec_sign_key_file = [];
    dnssec_sign_private_key_file = [];
    dns_refuse_any = false;
    dns_max_edns_udp_payload = pos 0;
    cache_records =
        read-some vals vals.as_bool false c.cache_records (vals.of_bool c.cache_records)
          (h.bools c.cache_records) i;
    local_records_enabled = read_bool_or_true-omit_bool vals c.local_records_enabled h.bools i;
    full_stats =
        read-some vals vals.as_bool false c.full_stats (vals.of_bool c.full_stats)
          (h.bools c.full_stats) i;
    full_stats_dir =
        read-some vals vals.as_text [] c.full_stats_dir (vals.of_text c.full_stats_dir)
          h.full_stats_dir i;
    client_socket_path =
        read_either-some vals vals.as_text [] c.client_socket_path
          (vals.of_text c.client_socket_path) none h.client_socket_path i;
    client_tcp_address =
        read_either-some vals vals.as_text [] c.client_tcp_address
          (vals.of_text c.client_tcp_address) none h.client_tcp_address i;
    file_locations = read_file_locations-write vals c h i;
    dns_record_settings = h.dns_record_settings i;
    log = h.log i;
    adblock_list_files = read-omit_texts vals c.adblock_list_files h.adblock_list_files i;
    upstream_health_check_enabled = read-omit_bool vals c.upstream_health_check_enabled h.bools i;
    upstream_health_check_failures =
        read-omit_int vals c.upstream_health_check_failures h.upstream_health_check_failures i;
    upstream_health_check_interval_seconds =
        read-omit_int vals c.upstream_health_check_interval_seconds
          h.upstream_health_check_interval_seconds i;
    upstream_health_check_query_name =
        read-omit_text vals c.upstream_health_check_query_name h.upstream_health_check_query_name i;
    min_cache_ttl_seconds = read-omit_int vals c.min_cache_ttl_seconds h.min_cache_ttl_seconds i;
    stale_while_revalidate = read-omit_bool vals c.stale_while_revalidate h.bools i;
    cache_warm_enabled = read_bool_or_true-omit_bool vals c.cache_warm_enabled h.bools i;
    cache_warm_interval_seconds =
        read_int_or-omit_int vals (pos 10) c.cache_warm_interval_seconds
          h.cache_warm_interval_seconds i;
    cache_compact_enabled = read_bool_or_true-omit_bool vals c.cache_compact_enabled h.bools i;
    cache_compact_interval_seconds =
        read_int_or-omit_int vals (pos 1800) c.cache_compact_interval_seconds
          h.cache_compact_interval_seconds i;
    stats_dashboard_enabled = read_bool_or_true-omit_bool vals c.stats_dashboard_enabled h.bools i;
    dashboard_resolution_log_cap =
        read-omit_int vals c.dashboard_resolution_log_cap h.dashboard_resolution_log_cap i;
    pprof_enabled = read-omit_bool vals c.pprof_enabled h.bools i;
    pprof_listen = read-omit_text vals c.pprof_listen h.pprof_listen i;
    pretty_json = read-omit_bool vals c.pretty_json h.bools i;
    cluster_enabled = read-omit_bool vals c.cluster_enabled h.bools i;
    cluster_listen_addr = read-omit_text vals c.cluster_listen_addr h.cluster_listen_addr i;
    cluster_peers = read-omit_texts vals c.cluster_peers h.cluster_peers i;
    cluster_auth_token = read-omit_text vals c.cluster_auth_token h.cluster_auth_token i;
    cluster_node_id = read-omit_text vals c.cluster_node_id h.cluster_node_id i;
    cluster_sync_interval_seconds =
        read-omit_int vals c.cluster_sync_interval_seconds h.cluster_sync_interval_seconds i;
    cluster_advertise_addr =
        read-omit_text vals c.cluster_advertise_addr h.cluster_advertise_addr i;
    cluster_replica_only = read-omit_bool vals c.cluster_replica_only h.bools i;
    cluster_reject_local_writes = read-omit_bool vals c.cluster_reject_local_writes h.bools i;
    cluster_admin = read-omit_bool vals c.cluster_admin h.bools i;
    cluster_admin_token = read-omit_text vals c.cluster_admin_token h.cluster_admin_token i;
    cluster_sync_policy = read-omit_text vals c.cluster_sync_policy h.cluster_sync_policy i;
    cluster_allowed_writer_node_ids =
        read-omit_texts vals c.cluster_allowed_writer_node_ids h.cluster_allowed_writer_node_ids i;
    cluster_discovery_srv = read-omit_text vals c.cluster_discovery_srv h.cluster_discovery_srv i;
    cluster_discovery_interval_seconds = discovery_srv-then vals c h i;
    axfr_enabled = read-omit_bool vals c.axfr_enabled h.bools i;
    axfr_allowed_networks = read-omit_texts vals c.axfr_allowed_networks h.axfr_allowed_networks i;
  }

  save-ok :
      (paths : Paths) (disk : Disk V) (path : Text) (c : Config) (raw : Key → Option V)
      → save vals paths disk path c ≡ ok raw
      → raw ≡ marshal vals (apply_defaults paths (disk.dir path) c)
  save-ok paths disk path c raw s = elim (Bool-cases (disk.made (disk.dir path))) [
    | inr n ↦
        let k : save vals paths disk path c ≡ err not_made = unfold save in rw n refl in absurd cc
    | inl m ↦ elim (Bool-cases (disk.written path)) [
      | inr n ↦
          let k : save vals paths disk path c ≡ err not_written = unfold save in rw (m, n) refl in
          absurd cc
      | inl w ↦
          let k : save vals paths disk path c
              ≡ ok (marshal vals (apply_defaults paths (disk.dir path) c)) =
            unfold save in rw (m, w) refl in
          cc
    ]
  ]

  -- If Save writes a configuration and Read finds what it wrote, Read gives the configuration with
  -- its defaults filled in, except that the settings that UnmarshalJSON does not name have their
  -- zero value or default, the four settings that an absent key sets are true, and an interval of
  -- 0 has the value for an absent key. JSON carries the values of the configuration unchanged.
  pub read_at-save :
      (paths : Paths) (disk : Disk V) (path : Text) (c : Config) (raw : Key → Option V)
      → Carries vals (apply_defaults paths (disk.dir path) c)
      → save vals paths disk path c ≡ ok raw
      → disk.read_file path ≡ object raw
      → read_at vals paths disk path
        ≡ some
            (apply_defaults paths (disk.dir path) (reread (apply_defaults paths (disk.dir path) c)))
  unfolding read_at
  read_at-save paths disk path c raw h s r =
      let saved = apply_defaults paths (disk.dir path) c in
      let q : parsed vals paths disk (disk.read_file path) ≡ some (reread saved) = rw r (
        unfold parsed in
        ap some
          (ap (unmarshal vals) (save-ok paths disk path c raw s) ∙ unmarshal-marshal saved h)) in
      rw (read_at, q) refl
