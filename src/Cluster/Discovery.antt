-- ===== src/Cluster/Discovery.antt =====
-- cluster/discovery.go: the name of an SRV query taken apart, and the addresses of its answer. The
-- query itself and net.JoinHostPort are parameters.
use dnsplane.Base.{
  ℕ, suc, ◌+◌, ◌==◌, Bool, ◌||◌, not, List, [], ◌∷◌, Option, none, some, drop, take, length,
  is_empty, ltb, if◌then◌else◌,
}
use dnsplane.Text.{Text, codes, trim_space, trim_dot, has_prefix, decimal}

-- net.SRV
pub record Srv : Type 0 where
  pub target : Text
  pub port : ℕ
  pub priority : ℕ
  pub weight : ℕ

pub record SrvQuery : Type 0 where
  pub service : Text
  pub proto : Text
  pub zone : Text

-- strings.Index
unfoldable pub text_index : Text → Text → Option ℕ
text_index [] sub = if is_empty sub then some 0 else none
text_index (c ∷ s) sub =
    let rest = text_index s sub in
    if has_prefix (c ∷ s) sub then some 0 else elim rest [ none ↦ none | some i ↦ some (suc i) ]

-- The service and the zone around "._tcp." or "._udp.", if it occurs.
unfoldable pub cut_proto : Text → Text → Text → Option SrvQuery
cut_proto s sep proto = elim (text_index s sep) [
  | none ↦ none
  | some i ↦
      some (record { service = take i s; proto = proto; zone = trim_dot (drop (i + length sep) s) })
]

unfoldable pub parse_srv_query : Text → Option SrvQuery
parse_srv_query fqdn =
    let name = trim_dot (trim_space fqdn) in
    let s = drop 1 name in
    if not (has_prefix name (codes "_"))
    then none
    else elim (cut_proto s (codes "._tcp.") (codes "tcp")) [
      | some q ↦ some q
      | none ↦ cut_proto s (codes "._udp.") (codes "udp")
    ]

-- The order of the sort: priority ascending, then weight descending.
unfoldable pub srv_less : Srv → Srv → Bool
srv_less a b =
    if not (a.priority == b.priority) then ltb a.priority b.priority else ltb b.weight a.weight

-- sort.SliceStable
unfoldable pub insert_srv : Srv → List Srv → List Srv
insert_srv a [] = a ∷ []
insert_srv a (b ∷ bs) = let rest = insert_srv a bs in if srv_less b a then b ∷ rest else a ∷ b ∷ bs

unfoldable pub sort_srvs : List Srv → List Srv
sort_srvs [] = []
sort_srvs (a ∷ addrs) = insert_srv a (sort_srvs addrs)

module _ (join_host_port : Text → Text → Text) where
  unfoldable pub srv_addrs : List Srv → List Text
  srv_addrs [] = []
  srv_addrs (a ∷ addrs) =
      let h = trim_dot (trim_space a.target) in
      let rest = srv_addrs addrs in
      if is_empty h || (a.port == 0 || ltb 65535 a.port)
      then rest
      else join_host_port h (decimal a.port) ∷ rest

  -- The error of the query, if it fails, and the addresses.
  unfoldable pub lookup_srv_targets :
      (Text → Text → Text → Option Text × List Srv) → Text → Option Text × List Text
  lookup_srv_targets lookup srv_query = elim (parse_srv_query (trim_space srv_query)) [
    | none ↦ (none, [])
    | some q ↦
        if is_empty (trim_space srv_query) || is_empty q.zone
        then (none, [])
        else elim (lookup q.service q.proto q.zone).0 [
          | some err ↦ (some err, [])
          | none ↦ (none, srv_addrs (sort_srvs (lookup q.service q.proto q.zone).1))
        ]
  ]
