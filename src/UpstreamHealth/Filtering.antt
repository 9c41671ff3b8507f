-- ===== src/UpstreamHealth/Filtering.antt =====
-- data/upstream_health.go: which upstreams are left for a query.
use dnsplane.Base.{
  ◌≡◌, refl, Bool, true, false, ◌&&◌, not, List, [], ◌∷◌, arith, any, all, filter, map, is_empty,
  if◌then◌else◌, inl, inr, Bool-cases,
}
use dnsplane.Text.{Text, text_eq}
use dnsplane.Text.Equality.{text_eq_iff, text_eq_refl}
use dnsplane.Servers.Types.{UpstreamEndpoint, health_key}
use dnsplane.UpstreamHealth.{Tracker, is_unhealthy, filter_addrs, filter_healthy_upstream_endpoints}

abbrev mem : List Text → Text → Bool
mem keys x = any (λ k. text_eq k x) keys

mem-filter :
    (h : Text → Bool) (keys : List Text) (x : Text) → mem (filter h keys) x ≡ (h x && mem keys x)
mem-filter h [] x = ground arith
mem-filter h (k ∷ keys) x = elim (Bool-cases (text_eq k x)) [
  | inl e ↦ rw ((text_eq_iff k x).0 e) (ground (arith, mem-filter h keys x, text_eq_refl x))
  | inr n ↦ ground (arith, mem-filter h keys x)
]

filter-mem :
    (h : Text → Bool) (keys : List Text) (eps : List UpstreamEndpoint)
    → all (λ ep. mem keys (health_key ep)) eps ≡ true
    → filter (λ ep. mem (filter h keys) (health_key ep)) eps ≡ filter (λ ep. h (health_key ep)) eps
filter-mem h keys [] w = refl
filter-mem h keys (ep ∷ eps) w =
    ground (arith, mem-filter h keys (health_key ep), filter-mem h keys eps)

all-mem-cons :
    (k : Text) (keys : List Text) (eps : List UpstreamEndpoint)
    → all (λ ep. mem keys (health_key ep)) eps ≡ true
    → all (λ ep. mem (k ∷ keys) (health_key ep)) eps ≡ true
all-mem-cons k keys [] w = refl
all-mem-cons k keys (ep ∷ eps) w = ground (arith, all-mem-cons k keys eps)

all-mem_self :
    (eps : List UpstreamEndpoint) → all (λ ep. mem (map health_key eps) (health_key ep)) eps ≡ true
all-mem_self [] = refl
all-mem_self (ep ∷ eps) = ground (
  arith,
  text_eq_refl (health_key ep),
  all-mem-cons (health_key ep) (map health_key eps) eps (all-mem_self eps),
)

filter_self :
    (keys : List Text) (eps : List UpstreamEndpoint)
    → all (λ ep. mem keys (health_key ep)) eps ≡ true
    → filter (λ ep. mem keys (health_key ep)) eps ≡ eps
filter_self keys [] w = refl
filter_self keys (ep ∷ eps) w = ground (arith, filter_self keys eps)

is_empty-filter {ℓ} :
    {A : Type ℓ} (p : A → Bool) (xs : List A) → is_empty (filter p xs) ≡ not (any p xs)
is_empty-filter p [] = refl
is_empty-filter p (x ∷ xs) = ground (arith, is_empty-filter p xs)

any-map :
    (p : Text → Bool) (eps : List UpstreamEndpoint)
    → any p (map health_key eps) ≡ any (λ ep. p (health_key ep)) eps
any-map p [] = refl
any-map p (ep ∷ eps) = rw (any-map p eps)

is_empty-map : (eps : List UpstreamEndpoint) → is_empty (map health_key eps) ≡ is_empty eps
is_empty-map [] = refl
is_empty-map (ep ∷ eps) = refl

-- The upstream is not known to be down.
abbrev pub is_up : Tracker → UpstreamEndpoint → Bool
is_up t ep = not (is_unhealthy t (health_key ep))

up_key : Tracker → Text → Bool
up_key t k = not (is_unhealthy t k)

filter_addrs_lem :
    (t : Tracker) (enabled : Bool) (addrs : List Text)
    → filter_addrs t enabled addrs
      ≡ (if enabled && any (up_key t) addrs then filter (up_key t) addrs else addrs)
unfolding filter_addrs up_key
filter_addrs_lem t enabled [] = ground arith
filter_addrs_lem t enabled (a ∷ addrs) = ground (arith, is_empty-filter (up_key t) (a ∷ addrs))

if_empty : (eps : List UpstreamEndpoint) → (if is_empty eps then eps else eps) ≡ eps
if_empty [] = refl
if_empty (ep ∷ eps) = refl

-- The filter of the endpoints by the keys that are kept.
keep_by : List Text → List UpstreamEndpoint → List UpstreamEndpoint
keep_by keep eps = filter (λ ep. mem keep (health_key ep)) eps

filter_healthy_by :
    (t : Tracker) (enabled : Bool) (eps : List UpstreamEndpoint)
    → filter_healthy_upstream_endpoints t enabled eps ≡ (
        let out = keep_by (filter_addrs t enabled (map health_key eps)) eps in
        if is_empty eps then eps else if is_empty out then eps else out)
unfolding filter_healthy_upstream_endpoints keep_by
filter_healthy_by t enabled eps = refl

keep_by-all : (eps : List UpstreamEndpoint) → keep_by (map health_key eps) eps ≡ eps
unfolding keep_by
keep_by-all eps = filter_self (map health_key eps) eps (all-mem_self eps)

keep_by-up :
    (t : Tracker) (eps : List UpstreamEndpoint)
    → keep_by (filter (up_key t) (map health_key eps)) eps ≡ filter (is_up t) eps
unfolding keep_by up_key
keep_by-up t eps = filter-mem (up_key t) (map health_key eps) eps (all-mem_self eps)

any-up_key :
    (t : Tracker) (eps : List UpstreamEndpoint)
    → any (up_key t) (map health_key eps) ≡ any (is_up t) eps
unfolding up_key
any-up_key t eps = any-map (up_key t) eps

not_empty_of_any :
    (p : UpstreamEndpoint → Bool) (eps : List UpstreamEndpoint)
    → any p eps ≡ true
    → is_empty eps ≡ false
not_empty_of_any p [] h = cc
not_empty_of_any p (ep ∷ eps) h = refl

-- With the health checks enabled and at least one upstream up, exactly the endpoints that are up
-- are left, in their order; else all endpoints are.
pub filter_healthy_upstream_endpoints_lem :
    (t : Tracker) (enabled : Bool) (eps : List UpstreamEndpoint)
    → filter_healthy_upstream_endpoints t enabled eps
      ≡ (if enabled && any (is_up t) eps then filter (is_up t) eps else eps)
filter_healthy_upstream_endpoints_lem t enabled eps =
    let addrs = filter_addrs_lem t enabled (map health_key eps) in
    elim (Bool-cases (enabled && any (is_up t) eps)) [
      | inr none_up ↦
          rw (filter_healthy_by t enabled eps, addrs, any-up_key t eps, none_up, keep_by-all eps)
            (ground (arith, if_empty eps))
      | inl up ↦
          rw (filter_healthy_by t enabled eps, addrs, any-up_key t eps, up, keep_by-up t eps)
            (ground
              (arith, is_empty-filter (is_up t) eps, not_empty_of_any (is_up t) eps (ground arith)))
    ]
