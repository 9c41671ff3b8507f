-- ===== src/Examples/Exchanged.antt =====
-- Concrete pulls and pushes, and concrete peers: cluster/.
use dnsplane.Base.{◌≡◌, refl, ◌&&◌, ◌||◌, not, map, true, List, [], ◌∷◌, ◌++◌, none, some, is_empty}
use dnsplane.Base.Unique.{Distinct}
use dnsplane.Text.{Text, codes, text_eq, trim_space, to_lower}
use dnsplane.Text.Dict.{get}
use dnsplane.Cluster.{
  is_duplicate, next_local_seq, floor_seq, peer_seq_of, should_apply_snapshot,
  normalize_sync_policy,
}
use dnsplane.Cluster.Wire.{type_pull}
use dnsplane.Cluster.Manager.{Manager, trimmed_peers, full_message}
use dnsplane.Cluster.Serve.{serve_conn, simple, is_refused}
use dnsplane.Cluster.Dial.{connected, pull_once, auth_frame, start_push, request}
use dnsplane.Cluster.Dial.Exchange.{HasTaken, IsWelcome}
use dnsplane.Cluster.Dial.Delivered.{pull_once-serve_conn, push-serve_conn, pull_once-unhealed}
use dnsplane.Cluster.Peers.{merge_peer_addrs, snapshot}
use dnsplane.Cluster.Peers.Merged.{lists, names, merge_peer_addrs-Merges}
use dnsplane.Cluster.Peers.Reachable.{
  Event, probe, outbound, track, last_probe_succeeded, status_of, snapshot-track,
}
use dnsplane.Examples.Nodes.{env, node, address, json-SameType}

pull_once-serve_conn_example :
    let served =
      serve_conn env
        (codes "a")
        true
        (auth_frame env (codes "secret") ∷ simple env type_pull [] ∷ [])
        (node (codes "b") 7 (address ∷ [])) in
    (served.0 ≡ node (codes "b") 7 (address ∷ []))
    × HasTaken env
        (full_message env 7 (node (codes "b") 7 (address ∷ []))).body
        (pull_once env (codes "b") (connected served.1) (node (codes "a") 3 []))
unfolding is_refused trim_space text_eq IsWelcome is_duplicate full_message floor_seq peer_seq_of
    get should_apply_snapshot normalize_sync_policy to_lower
pull_once-serve_conn_example =
    pull_once-serve_conn env env (codes "b") (codes "a") (node (codes "a") 3 [])
      (node (codes "b") 7 (address ∷ [])) refl (λ m s t. refl) refl (refl, refl) refl
      (refl, refl, refl)

push-serve_conn_example :
    let started = start_push env (node (codes "a") 3 (address ∷ [])) in
    let served =
      serve_conn env
        (codes "a")
        true
        (auth_frame env (codes "secret") ∷ started.1 ∷ [])
        (node (codes "b") 7 []) in
    HasTaken env (full_message env started.0.state.local_seq started.0).body served.0
    × (request env (connected served.1) ≡ none)
unfolding is_refused trim_space text_eq IsWelcome is_duplicate full_message start_push
    next_local_seq floor_seq peer_seq_of get should_apply_snapshot normalize_sync_policy to_lower
push-serve_conn_example =
    push-serve_conn env env (codes "a") (node (codes "a") 3 (address ∷ [])) (node (codes "b") 7 [])
      refl (λ m s t. refl) json-SameType refl refl (refl, refl) (refl, refl, refl)

merge_peer_addrs-Merges_example :
    Distinct text_eq
      (λ b. b)
      (merge_peer_addrs (codes " a:1" ∷ codes "b:2" ∷ []) (codes "a:1" ∷ []))
    × ((a : Text)
        → lists a (merge_peer_addrs (codes " a:1" ∷ codes "b:2" ∷ []) (codes "a:1" ∷ []))
          ≡ not (is_empty a)
            && (names a (codes " a:1" ∷ codes "b:2" ∷ []) || names a (codes "a:1" ∷ [])))
    × ((rest : List Text) × (merge_peer_addrs (codes " a:1" ∷ codes "b:2" ∷ []) (codes "a:1" ∷ [])
          ≡ merge_peer_addrs (codes " a:1" ∷ codes "b:2" ∷ []) [] ++ rest))
merge_peer_addrs-Merges_example =
    merge_peer_addrs-Merges (codes " a:1" ∷ codes "b:2" ∷ []) (codes "a:1" ∷ [])

abbrev events : List Event
events =
    probe 90 (codes " b:2 ") 0 (some (codes "refused"))
    ∷ outbound 80 (codes "b:2") none
    ∷ probe 70 (codes "b:2") 12 none
    ∷ probe 60 (codes "a:1") 15 none
    ∷ []

snapshot-track_example :
    map status_of (snapshot (track events) (codes "a:1" ∷ codes "b:2" ∷ []))
    ≡ map (λ a. (a, last_probe_succeeded a events)) (trimmed_peers (codes "a:1" ∷ codes "b:2" ∷ []))
snapshot-track_example = snapshot-track events (codes "a:1" ∷ codes "b:2" ∷ [])

-- A node that has seen the number 7 of the node "b", and whose records have changed since.
abbrev drifted : Manager
drifted = record (node (codes "a") 3 (address ∷ address ∷ [])) {
  state = record (node (codes "a") 3 []).state { peer_seq = (codes "b", 7) ∷ [] };
}

pull_once-unhealed_example :
    let served =
      serve_conn env
        (codes "a")
        true
        (auth_frame env (codes "secret") ∷ simple env type_pull [] ∷ [])
        (node (codes "b") 7 (address ∷ [])) in
    ((pull_once env (codes "b") (connected served.1) drifted).dns ≡ drifted.dns)
    × ((pull_once env (codes "b") (connected served.1) drifted).state ≡ drifted.state)
unfolding is_refused trim_space text_eq is_duplicate full_message floor_seq peer_seq_of get
pull_once-unhealed_example =
    pull_once-unhealed env env (codes "b") (codes "a") drifted (node (codes "b") 7 (address ∷ []))
      refl (λ m s t. refl) refl (refl, refl) refl refl
