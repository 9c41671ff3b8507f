-- ===== src/Cluster/Peers/Reachable.antt =====
-- cluster/status.go: which peers count as reachable after any sequence of events.
use dnsplane.Base.{
  ℕ, ◌≡◌, refl, ap, ap₂, ◌∙◌, map, Bool, true, false, not, List, [], ◌∷◌, Option, none, some,
  is_empty, is_some, Bool-cases, inl, inr, if◌then◌else◌,
}
use dnsplane.Text.{Text, text_eq, trim_space}
use dnsplane.Text.Equality.{text_eq→eq}
use dnsplane.Text.Dict.{get, put, get-put}
use dnsplane.Cluster.Manager.{trimmed_peers}
use dnsplane.Cluster.Peers.{
  PeerTracker, PeerStatus, get_or_create, update_peer, record_outbound, record_inbound, record_pull,
  record_probe, with_outbound, with_inbound, with_pull, with_probe, new_status, snapshot,
}

-- A call of the tracker, at a time and for an address as it is written.
pub data Event : Type 0 where
  outbound : ℕ → Text → Option Text → Event
  inbound : ℕ → Text → Event
  pull : ℕ → Text → Bool → Event
  probe : ℕ → Text → ℕ → Option Text → Event

unfoldable pub record_event : Event → PeerTracker → PeerTracker
record_event (outbound now addr err) t = record_outbound now addr err t
record_event (inbound now addr) t = record_inbound now addr t
record_event (pull now addr ok) t = record_pull now addr ok t
record_event (probe now addr rtt err) t = record_probe now addr rtt err t

-- The latest event stands first.
unfoldable pub track : List Event → PeerTracker
unfolding record_event
track [] = []
track (e ∷ es) = record_event e (track es)

-- The latest probe of the address succeeded.
unfoldable pub last_probe_succeeded : Text → List Event → Bool
last_probe_succeeded a [] = false
last_probe_succeeded a (outbound now addr err ∷ es) = last_probe_succeeded a es
last_probe_succeeded a (inbound now addr ∷ es) = last_probe_succeeded a es
last_probe_succeeded a (pull now addr ok ∷ es) = last_probe_succeeded a es
last_probe_succeeded a (probe now addr rtt err ∷ es) =
    let before = last_probe_succeeded a es in
    if text_eq (trim_space addr) a then not (is_some err) else before

update_peer-put :
    (addr : Text) (f : PeerStatus → PeerStatus) (t : PeerTracker)
    → is_empty (trim_space addr) ≡ false
    → update_peer addr f t ≡ put (trim_space addr) (f (get_or_create (trim_space addr) t)) t
unfolding update_peer
update_peer-put addr f t n = rw (update_peer, n) refl

get_or_create-put :
    (k a : Text) (p : PeerStatus) (t : PeerTracker)
    → get_or_create a (put k p t) ≡ (if text_eq k a then p else get_or_create a t)
unfolding get_or_create
get_or_create-put k a p t =
    let g = get-put k a p t in
    elim (Bool-cases (text_eq k a)) [
      | inl q ↦ rw (get_or_create, g, q) refl
      | inr q ↦ rw (get_or_create, g, q) refl
    ]

-- An update changes the status of its address only.
get_or_create-update_peer :
    (addr : Text) (f : PeerStatus → PeerStatus) (t : PeerTracker) (a : Text)
    → is_empty a ≡ false
    → get_or_create a (update_peer addr f t)
      ≡ (if text_eq (trim_space addr) a then f (get_or_create a t) else get_or_create a t)
unfolding update_peer get_or_create
get_or_create-update_peer addr f t a h =
    let b = trim_space addr in
    elim (Bool-cases (text_eq b a)) [
      | inl q ↦
          let same : b ≡ a = text_eq→eq b a q in
          let n : is_empty b ≡ false = rw same h in
          rw (update_peer-put addr f t n, get_or_create-put, q, same) refl
      | inr q ↦ elim (Bool-cases (is_empty b)) [
        | inl e ↦ rw (q, update_peer, e) refl
        | inr n ↦ rw (update_peer-put addr f t n, get_or_create-put, q) refl
      ]
    ]

unfoldable pub status_of : PeerStatus → Text × Bool
status_of p = (p.address, p.reachable)

-- An event that is no probe, or that is a probe of another address, keeps the reachability.
status-update_peer :
    (addr : Text) (f : PeerStatus → PeerStatus) (t : PeerTracker) (a : Text)
    → is_empty a ≡ false
    → ((p : PeerStatus) → status_of (f p) ≡ status_of p)
    → status_of (get_or_create a (update_peer addr f t)) ≡ status_of (get_or_create a t)
status-update_peer addr f t a h k =
    rw (get_or_create-update_peer addr f t a h) (elim (Bool-cases (text_eq (trim_space addr) a)) [
      | inl q ↦ rw q (k (get_or_create a t))
      | inr q ↦ rw q refl
    ])

status-with_probe :
    (now rtt : ℕ) (err : Option Text) (p : PeerStatus)
    → status_of (with_probe now rtt err p) ≡ (p.address, not (is_some err))
unfolding with_probe status_of
status-with_probe now rtt none p = refl
status-with_probe now rtt (some err) p = refl

status_of-track :
    (es : List Event) (a : Text)
    → is_empty a ≡ false
    → status_of (get_or_create a (track es)) ≡ (a, last_probe_succeeded a es)
unfolding track last_probe_succeeded status_of record_event record_outbound record_inbound
    record_pull record_probe
status_of-track [] a h = unfold get_or_create get new_status in refl
status_of-track (outbound now addr none ∷ es) a h =
    status-update_peer addr (with_outbound now none) (track es) a h
      (λ p. unfold with_outbound in refl)
    ∙ status_of-track es a h
status_of-track (outbound now addr (some err) ∷ es) a h =
    status-update_peer addr (with_outbound now (some err)) (track es) a h
      (λ p. unfold with_outbound in refl)
    ∙ status_of-track es a h
status_of-track (inbound now addr ∷ es) a h =
    status-update_peer addr (with_inbound now) (track es) a h (λ p. unfold with_inbound in refl)
    ∙ status_of-track es a h
status_of-track (pull now addr true ∷ es) a h =
    status-update_peer addr (with_pull now true) (track es) a h (λ p. unfold with_pull in refl)
    ∙ status_of-track es a h
status_of-track (pull now addr false ∷ es) a h =
    status-update_peer addr (with_pull now false) (track es) a h (λ p. unfold with_pull in refl)
    ∙ status_of-track es a h
status_of-track (probe now addr rtt err ∷ es) a h =
    unfold record_probe in
    rw (get_or_create-update_peer addr (with_probe now rtt err) (track es) a h)
      (elim (Bool-cases (text_eq (trim_space addr) a)) [
        | inl q ↦ rw q (
            status-with_probe now rtt err (get_or_create a (track es))
            ∙ ap (λ (x : Text × Bool). (x.0, not (is_some err))) (status_of-track es a h))
        | inr q ↦ rw q (status_of-track es a h)
      ])

-- After any pushes, pulls, probes and received snapshots, from an empty tracker, the rows of a
-- list of addresses are those of its addresses that are not blank, trimmed and in order, and a row
-- is reachable exactly when the latest probe of its address succeeded.
pub snapshot-track :
    (es : List Event) (addrs : List Text)
    → map status_of (snapshot (track es) addrs)
      ≡ map (λ a. (a, last_probe_succeeded a es)) (trimmed_peers addrs)
unfolding snapshot trimmed_peers
snapshot-track es [] = refl
snapshot-track es (addr ∷ addrs) = elim (Bool-cases (is_empty (trim_space addr))) [
  | inl e ↦ rw e (snapshot-track es addrs)
  | inr n ↦
      rw n (ap₂ (λ x xs. x ∷ xs) (status_of-track es (trim_space addr) n) (snapshot-track es addrs))
]
