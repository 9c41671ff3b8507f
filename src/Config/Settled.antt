-- ===== src/Config/Settled.antt =====
-- config/config.go: the numbers and texts of a configuration whose defaults have been filled in,
-- each against what it was before.
use dnsplane.Base.{
  ◌≡◌, refl, Bool, true, false, ◌&&◌, ◌||◌, not, is_empty, ltb, arith, Bool-cases, inl, inr, ◌⊎◌,
  if◌then◌else◌,
}
use dnsplane.Base.Int.{ℤ, pos, negsuc}
use dnsplane.Cluster.{lt_int}
use dnsplane.Text.{Text, trim_space}
use dnsplane.Config.Types.{Config}
use dnsplane.Config.Defaults.{
  Paths, or_text, at_least_zero, or_positive, compact_interval, log_cap, default_log,
  default_log_dir, apply_defaults,
}

-- The new value is sound, and it is the old one unless that is not.
unfoldable pub Settled {ℓ} : {A : Type ℓ} → (A → Bool) → A → A → Type ℓ
Settled {A} sound old new = (sound new ≡ true) × ((sound old ≡ false) ⊎ (new ≡ old))

unfoldable pub at_least : ℤ → ℤ → Bool
at_least low n = not (lt_int n low)

unfoldable pub is_positive : ℤ → Bool
is_positive n = lt_int (pos 0) n

-- At least the first, at most the last.
unfoldable pub in_range : ℤ → ℤ → ℤ → Bool
in_range low high n = not (lt_int n low) && not (lt_int high n)

unfoldable pub is_given : Text → Bool
is_given t = not (is_empty t)

unfoldable pub is_visible : Text → Bool
is_visible t = is_given (trim_space t)

-- The numbers of a configuration, from those of another one.
unfoldable pub HasLimits : Config → Config → Type 0
HasLimits old c =
    Settled (at_least (pos 0)) old.upstream_health_check_failures c.upstream_health_check_failures
    × Settled (at_least (pos 0)) old.upstream_health_check_interval_seconds
        c.upstream_health_check_interval_seconds
    × Settled (at_least (pos 0)) old.min_cache_ttl_seconds c.min_cache_ttl_seconds
    × Settled is_positive old.cache_warm_interval_seconds c.cache_warm_interval_seconds
    × Settled (at_least (pos 60)) old.cache_compact_interval_seconds
        c.cache_compact_interval_seconds
    × Settled (in_range (pos 1) (pos 1000000)) old.dashboard_resolution_log_cap
        c.dashboard_resolution_log_cap
    × Settled (at_least (pos 0)) old.cluster_sync_interval_seconds c.cluster_sync_interval_seconds
    × Settled (at_least (pos 0)) old.cluster_discovery_interval_seconds
        c.cluster_discovery_interval_seconds
    × Settled (at_least (pos 0)) old.api_rate_limit_burst c.api_rate_limit_burst
    × Settled (at_least (pos 0)) old.dns_rate_limit_burst c.dns_rate_limit_burst
    × Settled (at_least (pos 0)) old.dns_amplification_max_ratio c.dns_amplification_max_ratio
    × Settled (at_least (pos 0)) old.dns_rrl_window_seconds c.dns_rrl_window_seconds
    × Settled (at_least (pos 0)) old.dns_sliding_window_seconds c.dns_sliding_window_seconds
    × Settled is_positive old.log.rotation_size_mb c.log.rotation_size_mb
    × Settled is_positive old.log.rotation_days c.log.rotation_days

-- The texts that have a default, those of DoT, DoH and pprof if they are enabled.
unfoldable pub HasTexts : Config → Config → Type 0
HasTexts old c =
    Settled is_given old.fallback_server_ip c.fallback_server_ip
    × Settled is_given old.fallback_server_port c.fallback_server_port
    × Settled is_given old.dns_port c.dns_port
    × Settled is_given old.rest_port c.rest_port
    × Settled is_given old.client_socket_path c.client_socket_path
    × Settled is_given old.client_tcp_address c.client_tcp_address
    × Settled is_visible old.dns_response_limit_mode c.dns_response_limit_mode
    × Settled (λ t. not c.pprof_enabled || is_visible t) old.pprof_listen c.pprof_listen
    × Settled (λ t. not c.dot_enabled || is_given t) old.dot_port c.dot_port
    × Settled (λ t. not c.doh_enabled || is_given t) old.doh_port c.doh_port
    × Settled (λ t. not c.doh_enabled || is_given t) old.doh_path c.doh_path
    × Settled is_given old.log.dir c.log.dir
    × Settled is_given old.log.severity c.log.severity
    × Settled is_given old.log.rotation c.log.rotation

Settled-at_least_zero : (n : ℤ) → Settled (at_least (pos 0)) n (at_least_zero n)
unfolding Settled at_least at_least_zero lt_int
Settled-at_least_zero (pos n) = ground arith
Settled-at_least_zero (negsuc n) = (refl, inl refl)

pub Settled-or_positive :
    (absent n : ℤ) → is_positive absent ≡ true → Settled is_positive n (or_positive absent n)
unfolding Settled is_positive or_positive
Settled-or_positive absent n h = elim (Bool-cases (lt_int (pos 0) n)) [
  | inl e ↦ rw e (e, inr refl)
  | inr k ↦ rw k (h, inl refl)
]

Settled-compact_interval : (n : ℤ) → Settled (at_least (pos 60)) n (compact_interval n)
unfolding Settled at_least compact_interval lt_int
Settled-compact_interval (pos n) = ground arith
Settled-compact_interval (negsuc n) = (refl, inl refl)

Settled-log_cap : (n : ℤ) → Settled (in_range (pos 1) (pos 1000000)) n (log_cap n)
unfolding Settled log_cap or_positive lt_int in_range
Settled-log_cap (pos n) = elim (Bool-cases (ltb 0 n)) [
  | inr k ↦ rw k (refl, inl (ground arith))
  | inl e ↦ elim (Bool-cases (ltb 1000000 n)) [
    | inl f ↦ rw (e, f) (refl, inl (ground arith))
    | inr f ↦ rw (e, f) (ground arith, inr refl)
  ]
]
Settled-log_cap (negsuc n) = (refl, inl refl)

-- A text that is replaced where a test holds, which is where it is not sound.
Settled-replaced :
    (sound : Text → Bool) (test : Bool) (absent t : Text)
    → sound t ≡ not test
    → sound absent ≡ true
    → Settled sound t (if test then absent else t)
unfolding Settled
Settled-replaced sound true absent t e h = (h, inl e)
Settled-replaced sound false absent t e h = (e, inr refl)

Settled-or_text : (absent t : Text) → is_given absent ≡ true → Settled is_given t (or_text absent t)
unfolding or_text
Settled-or_text absent t h =
    Settled-replaced is_given (is_empty t) absent t (unfold is_given in refl) h

-- One that is needed only where a service is on.
Settled-needed :
    (on : Bool) (absent t : Text)
    → is_given absent ≡ true
    → Settled (λ s. not on || is_given s) t (if is_empty t && on then absent else t)
unfolding is_given
Settled-needed on absent t h =
    Settled-replaced (λ s. not on || not (is_empty s)) (is_empty t && on) absent t (ground arith)
      (ground arith)

Settled-listen :
    (on : Bool) (absent t : Text)
    → is_visible absent ≡ true
    → Settled (λ s. not on || is_visible s) t (if on && is_empty (trim_space t) then absent else t)
unfolding is_visible is_given
Settled-listen on absent t h =
    Settled-replaced (λ s. not on || not (is_empty (trim_space s))) (on && is_empty (trim_space t))
      absent t (ground arith) (ground arith)

module _ (paths : Paths) (dir : Text) (c : Config) where
  pub apply_defaults-HasLimits : HasLimits c (apply_defaults paths dir c)
  unfolding HasLimits apply_defaults default_log
  apply_defaults-HasLimits = (
    Settled-at_least_zero c.upstream_health_check_failures,
    Settled-at_least_zero c.upstream_health_check_interval_seconds,
    Settled-at_least_zero c.min_cache_ttl_seconds,
    Settled-or_positive (pos 10) c.cache_warm_interval_seconds (unfold is_positive lt_int in refl),
    Settled-compact_interval c.cache_compact_interval_seconds,
    Settled-log_cap c.dashboard_resolution_log_cap,
    Settled-at_least_zero c.cluster_sync_interval_seconds,
    Settled-at_least_zero c.cluster_discovery_interval_seconds,
    Settled-at_least_zero c.api_rate_limit_burst,
    Settled-at_least_zero c.dns_rate_limit_burst,
    Settled-at_least_zero c.dns_amplification_max_ratio,
    Settled-at_least_zero c.dns_rrl_window_seconds,
    Settled-at_least_zero c.dns_sliding_window_seconds,
    Settled-or_positive (pos 100) c.log.rotation_size_mb (unfold is_positive lt_int in refl),
    Settled-or_positive (pos 7) c.log.rotation_days (unfold is_positive lt_int in refl),
  )

  pub apply_defaults-HasTexts :
      is_given paths.default_socket_path ≡ true
      → is_given (default_log_dir paths dir) ≡ true
      → HasTexts c (apply_defaults paths dir c)
  unfolding HasTexts apply_defaults default_log is_given
  apply_defaults-HasTexts socket log_dir = (
    Settled-or_text _ c.fallback_server_ip refl,
    Settled-or_text _ c.fallback_server_port refl,
    Settled-or_text _ c.dns_port refl,
    Settled-or_text _ c.rest_port refl,
    Settled-or_text _ c.client_socket_path socket,
    Settled-or_text _ c.client_tcp_address refl,
    Settled-replaced is_visible (is_empty (trim_space c.dns_response_limit_mode)) _
        c.dns_response_limit_mode (unfold is_visible in refl)
        (unfold is_visible trim_space in refl),
    Settled-listen c.pprof_enabled _ c.pprof_listen (unfold is_visible trim_space in refl),
    Settled-needed c.dot_enabled _ c.dot_port refl,
    Settled-needed c.doh_enabled _ c.doh_port refl,
    Settled-needed c.doh_enabled _ c.doh_path refl,
    Settled-or_text _ c.log.dir log_dir,
    Settled-or_text _ c.log.severity refl,
    Settled-or_text _ c.log.rotation refl,
  )
