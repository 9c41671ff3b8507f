-- ===== src/Config/Valid.antt =====
-- config/config.go: what holds of every configuration after its defaults have been filled in.
use dnsplane.Base.{
  ◌≡◌, refl, Bool, true, false, ◌&&◌, ◌||◌, not, [], ◌∷◌, Option, none, some, is_empty, arith,
  Bool-cases, inl, inr, if◌then◌else◌,
}
use dnsplane.Base.Int.{pos}
use dnsplane.Cluster.{lt_int}
use dnsplane.Text.{Text, codes, text_eq, trim_space, to_lower}
use dnsplane.Config.Types.{Config, RecordsSourceConfig}
use dnsplane.Config.Defaults.{
  Paths, ensure_absolute_path, key_path, full_stats_path, default_source, source_or_default,
  default_files, default_log_dir, is_system_config_dir, apply_defaults, file_source,
}
use dnsplane.Config.Settled.{
  is_positive, is_given, is_visible, HasLimits, HasTexts, Settled, Settled-or_positive,
  apply_defaults-HasLimits, apply_defaults-HasTexts,
}

module _ (paths : Paths) where
  -- A path that has no default is absolute or blank.
  unfoldable pub is_placed : Text → Bool
  is_placed t = not (is_visible t) || paths.is_abs t

  -- A remote source has an interval, and a local one of a known type has absolute paths.
  unfoldable pub is_settled : RecordsSourceConfig → Bool
  is_settled rs =
      if text_eq rs.type (codes "url") || text_eq rs.type (codes "git")
      then is_positive rs.refresh_interval_seconds
      else if text_eq rs.type (codes "bind_dir")
      then paths.is_abs rs.location && is_placed rs.named_conf
      else text_eq rs.type (codes "file") && paths.is_abs rs.location

  unfoldable pub source_settled : Option RecordsSourceConfig → Bool
  source_settled none = false
  source_settled (some rs) = is_settled rs

  -- The files stand at absolute paths, and the records have a source.
  unfoldable pub HasFiles : Config → Type 0
  HasFiles c =
      (paths.is_abs c.full_stats_dir ≡ true)
      × (paths.is_abs c.file_locations.dns_server_file ≡ true)
      × (paths.is_abs c.file_locations.cache_file ≡ true)
      × (is_placed c.dnssec_sign_key_file ≡ true)
      × (is_placed c.dnssec_sign_private_key_file ≡ true)
      × (source_settled c.file_locations.records_source ≡ true)

-- A path joined to an absolute directory is absolute, so is a cleaned absolute path, and no
-- absolute path is empty.
abbrev pub KeepsAbsolute : Paths → Type 0
KeepsAbsolute paths =
    ((d v : Text) → paths.is_abs d ≡ true → paths.is_abs (paths.join d v) ≡ true)
    × ((v : Text) → paths.is_abs v ≡ true → paths.is_abs (paths.clean v) ≡ true)
    × (paths.is_abs [] ≡ false)

module _ (paths : Paths) (keeps : KeepsAbsolute paths) (dir : Text)
    (abs : paths.is_abs dir ≡ true) where
  is_abs-ensure_absolute_path :
      (v name : Text) → paths.is_abs (ensure_absolute_path paths dir v name) ≡ true
  is_abs-ensure_absolute_path v name = elim (Bool-cases (is_empty (trim_space v))) [
    | inl e ↦ unfold ensure_absolute_path in rw e (keeps.0 dir name abs)
    | inr n ↦ elim (Bool-cases (paths.is_abs (trim_space v))) [
      | inl e ↦ unfold ensure_absolute_path in rw (n, e) (keeps.1 (trim_space v) e)
      | inr k ↦ unfold ensure_absolute_path in rw (n, k) (keeps.0 dir (trim_space v) abs)
    ]
  ]

  is_given-is_abs : (v : Text) → paths.is_abs v ≡ true → is_given v ≡ true
  unfolding is_given
  is_given-is_abs [] h = ground (arith, keeps.2)
  is_given-is_abs (b ∷ v) h = refl

  is_given-default_log_dir : is_given (default_log_dir paths dir) ≡ true
  is_given-default_log_dir = elim (Bool-cases (is_system_config_dir paths dir)) [
    | inl e ↦ unfold default_log_dir in rw e (unfold is_given in refl)
    | inr n ↦
        unfold default_log_dir in
        rw n (is_given-is_abs (paths.join dir (codes "log")) (keeps.0 dir (codes "log") abs))
  ]

  is_placed-blank : (v : Text) → is_empty (trim_space v) ≡ true → is_placed paths v ≡ true
  unfolding is_placed is_visible is_given
  is_placed-blank v e = ground arith

  is_placed-is_abs : (v : Text) → paths.is_abs v ≡ true → is_placed paths v ≡ true
  unfolding is_placed
  is_placed-is_abs v e = ground arith

  is_placed-key_path : (v : Text) → is_placed paths (key_path paths dir v) ≡ true
  is_placed-key_path v = elim (Bool-cases (is_empty (trim_space v))) [
    | inl e ↦ unfold key_path in rw e (is_placed-blank v e)
    | inr n ↦ elim (Bool-cases (paths.is_abs (trim_space v))) [
      | inl e ↦ unfold key_path in rw (n, e) (is_placed-is_abs _ (keeps.1 (trim_space v) e))
      | inr k ↦ unfold key_path in rw (n, k) (is_placed-is_abs _ (keeps.0 dir (trim_space v) abs))
    ]
  ]

  is_placed-named_conf :
      (v : Text)
      → is_placed paths
          (if is_empty (trim_space v) then v else ensure_absolute_path paths dir (trim_space v) [])
        ≡ true
  is_placed-named_conf v = elim (Bool-cases (is_empty (trim_space v))) [
    | inl e ↦ rw e (is_placed-blank v e)
    | inr n ↦ rw n (is_placed-is_abs _ (is_abs-ensure_absolute_path (trim_space v) []))
  ]

  is_settled-default_source :
      (rs : RecordsSourceConfig) → is_settled paths (default_source paths dir rs) ≡ true
  unfolding Settled
  is_settled-default_source rs =
      elim (Bool-cases (text_eq rs.type (codes "url") || text_eq rs.type (codes "git"))) [
        | inl e ↦
            unfold default_source in
            rw e (
              unfold is_settled in
              rw e
                (Settled-or_positive (pos 60) rs.refresh_interval_seconds
                  (unfold is_positive lt_int in refl)).0)
        | inr n ↦ elim (Bool-cases (text_eq (to_lower (trim_space rs.type)) (codes "bind_dir"))) [
          | inl e ↦
              unfold default_source in
              rw (n, e)
                (unfold is_settled text_eq in
                  rw (is_abs-ensure_absolute_path rs.location (codes "zones"))
                    (is_placed-named_conf rs.named_conf))
          | inr k ↦
              unfold default_source in
              rw (n, k)
                (unfold is_settled text_eq in
                  is_abs-ensure_absolute_path rs.location (codes "dnsrecords.json"))
        ]
      ]

  source_settled-source_or_default :
      (o : Option RecordsSourceConfig)
      → source_settled paths (some (source_or_default paths dir o)) ≡ true
  unfolding source_settled source_or_default
  source_settled-source_or_default none = is_settled-default_source (file_source _)
  source_settled-source_or_default (some rs) = is_settled-default_source rs

  apply_defaults-HasFiles : (c : Config) → HasFiles paths (apply_defaults paths dir c)
  unfolding HasFiles apply_defaults default_files full_stats_path
  apply_defaults-HasFiles c = (
    elim (Bool-cases (is_empty c.full_stats_dir)) [
      | inl e ↦ rw e (keeps.0 dir (codes "fullstats") abs)
      | inr n ↦ rw n (is_abs-ensure_absolute_path c.full_stats_dir (codes "fullstats"))
    ],
    is_abs-ensure_absolute_path c.file_locations.dns_server_file (codes "dnsservers.json"),
    is_abs-ensure_absolute_path c.file_locations.cache_file (codes "dnscache.json"),
    is_placed-key_path c.dnssec_sign_key_file,
    is_placed-key_path c.dnssec_sign_private_key_file,
    source_settled-source_or_default c.file_locations.records_source,
  )

  -- After the defaults are filled in for an absolute directory: the failures and the interval of
  -- the health checks, the least TTL, the sync and discovery intervals of the cluster, the bursts
  -- of the API and of DNS, the amplification ratio and the windows of RRL and of the sliding
  -- window are at least 0, the compaction interval is at least 60, the warm interval and the size
  -- and days of the log's rotation are positive, and the cap of the dashboard's log is from 1 to
  -- 1000000. The fallback address and port, the ports of DNS and of the API, the socket path, the
  -- TCP address, and the directory, severity and rotation of the log are not empty and the
  -- response limit mode is not blank; nor is the address of pprof blank, or the port of DoT, or
  -- the port or path of DoH empty, if it is enabled. Each of these settings has the value from
  -- before, if that was so then. The statistics and the files of servers and cache have absolute
  -- paths, and the two signing keys absolute or blank ones. There is a source of records: one of
  -- type url or git with a positive refresh interval, one of type file at an absolute location, or
  -- one of type bind_dir at an absolute location whose named.conf is absolute or blank. A join to
  -- an absolute directory is absolute, so is an absolute path that is cleaned, an empty path is
  -- not absolute, and the default path of the socket is not empty.
  pub apply_defaults-IsUsable :
      is_given paths.default_socket_path ≡ true
      → (c : Config)
      → HasLimits c (apply_defaults paths dir c)
        × HasTexts c (apply_defaults paths dir c)
        × HasFiles paths (apply_defaults paths dir c)
  apply_defaults-IsUsable socket c = (
    apply_defaults-HasLimits paths dir c,
    apply_defaults-HasTexts paths dir c socket is_given-default_log_dir,
    apply_defaults-HasFiles c,
  )
