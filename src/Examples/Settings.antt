-- ===== src/Examples/Settings.antt =====
-- A concrete configuration, with values of JSON that are what they are made of: config/config.go.
use dnsplane.Base.{◌==◌, ◌≡◌, refl, Bool, true, false, List, [], ◌∷◌, ◌++◌, Option, none, some}
use dnsplane.Base.Int.{ℤ, pos, negsuc}
use dnsplane.Text.{Text, codes}
use dnsplane.Config.Types.{Config, RecordsSourceConfig, DnsRecordSettings, LogConfig}
use dnsplane.Config.Keys.{FileKey, Values}
use dnsplane.Config.Read.{no_settings, no_log}
use dnsplane.Config.Write.{marshal, write_files}
use dnsplane.Config.Defaults.{Paths, apply_defaults, default_config}
use dnsplane.Config.Load.{Disk, object, save, read_at}
use dnsplane.Config.Settled.{HasLimits, HasTexts, is_given}
use dnsplane.Config.Valid.{HasFiles, apply_defaults-IsUsable}
use dnsplane.Config.Carried.{Carries, reread}
use dnsplane.Config.RoundTrip.{read_at-save}

mutual
  data Value : Type 0 where
    v_text : Text → Value
    v_bool : Bool → Value
    v_int : ℤ → Value
    v_texts : List Text → Value
    v_file : (FileKey → Member) → Value
    v_source : Option RecordsSourceConfig → Value
    v_settings : DnsRecordSettings → Value
    v_log : LogConfig → Value

  data Member : Type 0 where
    missing : Member
    present : Value → Member

abbrev member_of : Option Value → Member
member_of none = missing
member_of (some v) = present v

abbrev value_of : Member → Option Value
value_of missing = none
value_of (present v) = some v

value_of-member_of : (o : Option Value) → value_of (member_of o) ≡ o
value_of-member_of none = refl
value_of-member_of (some v) = refl

abbrev as_text : Value → Option Text
as_text (v_text x) = some x
as_text (v_bool x) = none
as_text (v_int x) = none
as_text (v_texts x) = none
as_text (v_file x) = none
as_text (v_source x) = none
as_text (v_settings x) = none
as_text (v_log x) = none

abbrev as_bool : Value → Option Bool
as_bool (v_text x) = none
as_bool (v_bool x) = some x
as_bool (v_int x) = none
as_bool (v_texts x) = none
as_bool (v_file x) = none
as_bool (v_source x) = none
as_bool (v_settings x) = none
as_bool (v_log x) = none

abbrev as_int : Value → Option ℤ
as_int (v_text x) = none
as_int (v_bool x) = none
as_int (v_int x) = some x
as_int (v_texts x) = none
as_int (v_file x) = none
as_int (v_source x) = none
as_int (v_settings x) = none
as_int (v_log x) = none

abbrev as_texts : Value → List Text
as_texts (v_text x) = []
as_texts (v_bool x) = []
as_texts (v_int x) = []
as_texts (v_texts x) = x
as_texts (v_file x) = []
as_texts (v_source x) = []
as_texts (v_settings x) = []
as_texts (v_log x) = []

abbrev as_file : Value → Option (FileKey → Option Value)
as_file (v_text x) = none
as_file (v_bool x) = none
as_file (v_int x) = none
as_file (v_texts x) = none
as_file (v_file x) = some (λ k. value_of (x k))
as_file (v_source x) = none
as_file (v_settings x) = none
as_file (v_log x) = none

abbrev as_source : Value → Bool × Option RecordsSourceConfig
as_source (v_text x) = (false, none)
as_source (v_bool x) = (false, none)
as_source (v_int x) = (false, none)
as_source (v_texts x) = (false, none)
as_source (v_file x) = (false, none)
as_source (v_source x) = (true, x)
as_source (v_settings x) = (false, none)
as_source (v_log x) = (false, none)

abbrev as_settings : Value → DnsRecordSettings
as_settings (v_text x) = no_settings
as_settings (v_bool x) = no_settings
as_settings (v_int x) = no_settings
as_settings (v_texts x) = no_settings
as_settings (v_file x) = no_settings
as_settings (v_source x) = no_settings
as_settings (v_settings x) = x
as_settings (v_log x) = no_settings

abbrev as_log : Value → LogConfig
as_log (v_text x) = no_log
as_log (v_bool x) = no_log
as_log (v_int x) = no_log
as_log (v_texts x) = no_log
as_log (v_file x) = no_log
as_log (v_source x) = no_log
as_log (v_settings x) = no_log
as_log (v_log x) = x

abbrev values : Values Value
values = record {
  of_text = v_text;
  as_text = as_text;
  of_bool = v_bool;
  as_bool = as_bool;
  of_int = v_int;
  as_int = as_int;
  of_texts = v_texts;
  as_texts = as_texts;
  of_file = λ f. v_file (λ k. member_of (f k));
  as_file = as_file;
  of_source = v_source;
  as_source = as_source;
  of_settings = v_settings;
  as_settings = as_settings;
  of_log = v_log;
  as_log = as_log;
}

-- A path that starts with a slash is absolute; nothing is cleaned.
abbrev starts_with_slash : Text → Bool
starts_with_slash [] = false
starts_with_slash (c ∷ t) = c == 47

abbrev paths : Paths
paths = record {
  join = λ d v. d ++ codes "/" ++ v;
  clean = λ v. v;
  is_abs = starts_with_slash;
  default_socket_path = codes "/tmp/dnsplane.socket";
}

join-absolute :
    (d v : Text) → starts_with_slash d ≡ true → starts_with_slash (d ++ codes "/" ++ v) ≡ true
join-absolute [] v h = absurd cc
join-absolute (c ∷ d) v h = h

abbrev config_dir : Text
config_dir = codes "/etc/dnsplane"

-- The default configuration with two numbers that are out of their limits.
abbrev careless : Config
careless = record (default_config paths config_dir) {
  api_rate_limit_burst = negsuc 4;
  cache_compact_interval_seconds = pos 5;
}

apply_defaults-IsUsable_example :
    HasLimits careless (apply_defaults paths config_dir careless)
    × HasTexts careless (apply_defaults paths config_dir careless)
    × HasFiles paths (apply_defaults paths config_dir careless)
unfolding is_given
apply_defaults-IsUsable_example =
    apply_defaults-IsUsable paths (join-absolute, λ v h. h, refl) config_dir refl refl careless

-- The configuration that a save of the default one writes.
abbrev saved_config : Config
saved_config = apply_defaults paths config_dir (default_config paths config_dir)

abbrev disk : Disk Value
disk = record {
  read_file = λ path. object (marshal values saved_config);
  is_dir = λ path. false;
  dir = λ path. config_dir;
  base = λ path. codes "dnsplane.json";
  made = λ path. true;
  written = λ path. true;
  executable = none;
  user_config_dir = none;
  getwd = none;
}

saved_config-Carries : Carries values saved_config
saved_config-Carries = record {
  bools = λ b. refl;
  fallback_server_ip = refl;
  fallback_server_port = refl;
  timeout = refl;
  dns_port = refl;
  rest_port = refl;
  api_auth_token = refl;
  full_stats_dir = refl;
  client_socket_path = refl;
  client_tcp_address = refl;
  file_locations =
      λ i. some (λ k. value_of-member_of (write_files values saved_config.file_locations k) i);
  dns_record_settings = refl;
  log = refl;
  adblock_list_files = refl;
  upstream_health_check_failures = refl;
  upstream_health_check_interval_seconds = refl;
  upstream_health_check_query_name = refl;
  min_cache_ttl_seconds = refl;
  cache_warm_interval_seconds = refl;
  cache_compact_interval_seconds = refl;
  dashboard_resolution_log_cap = refl;
  pprof_listen = refl;
  cluster_listen_addr = refl;
  cluster_peers = refl;
  cluster_auth_token = refl;
  cluster_node_id = refl;
  cluster_sync_interval_seconds = refl;
  cluster_advertise_addr = refl;
  cluster_admin_token = refl;
  cluster_sync_policy = refl;
  cluster_allowed_writer_node_ids = refl;
  cluster_discovery_srv = refl;
  cluster_discovery_interval_seconds = refl;
  axfr_allowed_networks = refl;
  dns_server_file = refl;
  cache_file = refl;
  records_source = refl;
}

read_at-save_example :
    read_at values paths disk (codes "/etc/dnsplane/dnsplane.json")
    ≡ some (apply_defaults paths config_dir (reread saved_config))
unfolding save
read_at-save_example =
    read_at-save values paths disk (codes "/etc/dnsplane/dnsplane.json")
      (default_config paths config_dir) (marshal values saved_config) saved_config-Carries refl refl
