-- ===== src/Cluster/Dial/Delivered.antt =====
-- cluster/cluster.go: the two ends of a connection together: what a pull and a push do to the node
-- that dials and to the node that serves.
use dnsplane.Base.{◌≡◌, refl, sym, true, false, [], ◌∷◌, none}
use dnsplane.Text.{Text, trim_space}
use dnsplane.Cluster.{is_duplicate, next_local_seq}
use dnsplane.Cluster.Wire.{
  CarriesSimple, CarriesAuth, CarriesRecords, SameType, type_auth_ok, type_pull,
}
use dnsplane.Cluster.Manager.{Manager, Env, full_message}
use dnsplane.Cluster.Serve.{simple, is_refused, serve_conn, serve_records, current_snapshot}
use dnsplane.Cluster.Dial.{connected, pull_once, start_push, auth_frame, request}
use dnsplane.Cluster.Dial.Exchange.{
  offered, IsWelcome, HasTaken, serve_conn-pull, serve_conn-push, pull_once-HasTaken,
  pull_once-duplicate, serve_records-HasTaken, connected-ok,
}

module _ {ℓ} {F : Type ℓ} (env peer : Env F) (same : peer.json ≡ env.json) where
  -- A frame does not depend on which of two nodes with the same JSON makes it.
  auth_frame-same : (token : Text) → auth_frame env token ≡ auth_frame peer token
  unfolding auth_frame
  auth_frame-same token = rw same refl

  simple-same : (type message : Text) → simple env type message ≡ simple peer type message
  unfolding simple
  simple-same type message = rw same refl

  current_snapshot-same :
      (m : Manager)
      → current_snapshot peer m ≡ env.json.encode_records (full_message peer m.state.local_seq m)
  unfolding current_snapshot
  current_snapshot-same m = rw same refl

module _ {ℓ} {F : Type ℓ} (env peer : Env F) where
  -- The frames with which a node answers to a pull.
  served-pull :
      (remote : Text) (here there : Manager)
      → peer.json ≡ env.json
      → CarriesSimple env.json
      → CarriesAuth env.json (offered (trim_space here.settings.auth_token))
      → is_refused there (offered (trim_space here.settings.auth_token)) ≡ false
      → serve_conn peer remote true
          (auth_frame env (trim_space here.settings.auth_token) ∷ simple env type_pull [] ∷ [])
          there
        ≡ (
          there,
          simple env type_auth_ok []
              ∷ env.json.encode_records (full_message peer there.state.local_seq there)
              ∷ [],
        )
  served-pull remote here there same s a r =
      let token = trim_space here.settings.auth_token in
      rw
        (
          auth_frame-same env peer same token,
          simple-same env peer same type_pull [],
          simple-same env peer same type_auth_ok [],
          sym (current_snapshot-same env peer same there),
        )
        (serve_conn-pull peer remote token there (rw same s) (rw same a) r)

  -- A node pulls from a peer that accepts its token. If the peer's number is new to the node, the
  -- node's policy takes the snapshot and its records can be written, then the node has the peer's
  -- records, with their names made canonical, and counts the number as seen; the peer stays as it
  -- is. The two have the same JSON, which carries the messages unchanged.
  pub pull_once-serve_conn :
      (addr remote : Text) (here there : Manager)
      → peer.json ≡ env.json
      → CarriesSimple env.json
      → CarriesAuth env.json (offered (trim_space here.settings.auth_token))
      → CarriesRecords env.json (full_message peer there.state.local_seq there)
      → is_refused there (offered (trim_space here.settings.auth_token)) ≡ false
      → IsWelcome env (full_message peer there.state.local_seq there).body here
      → let served =
          serve_conn peer remote true
            (auth_frame env (trim_space here.settings.auth_token) ∷ simple env type_pull [] ∷ [])
            there in
        (served.0 ≡ there)
        × HasTaken env
            (full_message peer there.state.local_seq there).body
            (pull_once env addr (connected served.1) here)
  pull_once-serve_conn addr remote here there same s a c r w =
      let msg = full_message peer there.state.local_seq there in
      let served = served-pull remote here there same s a r in
      rw served (refl, pull_once-HasTaken env addr msg here s c (unfold full_message in refl) w)

  -- A node starts a push to a peer that accepts its token. If the number of the push is new to the
  -- peer, the peer's policy takes the snapshot and its records can be written, then the peer has
  -- the node's records, with their names made canonical, and counts the number as seen; the node
  -- finds no error. The two have the same JSON, which carries the messages unchanged.
  pub push-serve_conn :
      (remote : Text) (here there : Manager)
      → peer.json ≡ env.json
      → CarriesSimple env.json
      → SameType env.json
      → CarriesAuth env.json (offered (trim_space here.settings.auth_token))
      → is_refused there (offered (trim_space here.settings.auth_token)) ≡ false
      → let started = start_push env here in
        let msg = full_message env started.0.state.local_seq started.0 in
        CarriesRecords env.json msg
        → IsWelcome peer msg.body there
        → let served =
            serve_conn peer remote true
              (auth_frame env (trim_space here.settings.auth_token) ∷ started.1 ∷ [])
              there in
          HasTaken peer msg.body served.0 × (request env (connected served.1) ≡ none)
  push-serve_conn remote here there same s k a r c w =
      let token = trim_space here.settings.auth_token in
      let started = start_push env here in
      let msg = full_message env started.0.state.local_seq started.0 in
      let payload : started.1 ≡ peer.json.encode_records msg =
        rw same (unfold start_push next_local_seq in refl) in
      let served : serve_conn peer remote true (auth_frame env token ∷ started.1 ∷ []) there
          ≡ (serve_records peer remote msg.body there, simple env type_auth_ok [] ∷ []) =
        rw (auth_frame-same env peer same token, simple-same env peer same type_auth_ok [], payload)
          (serve_conn-push peer remote token there msg (rw same a) (rw same c) (rw same k) r
            (unfold full_message in refl)) in
      rw served (serve_records-HasTaken peer remote msg.body there w, connected-ok env [] s)

  -- A pull from a peer that accepts the node's token, and whose present number the node counts as
  -- seen, leaves the node's store and state as they are, whatever records the two have. The two
  -- have the same JSON, which carries the messages unchanged.
  pub pull_once-unhealed :
      (addr remote : Text) (here there : Manager)
      → peer.json ≡ env.json
      → CarriesSimple env.json
      → CarriesAuth env.json (offered (trim_space here.settings.auth_token))
      → CarriesRecords env.json (full_message peer there.state.local_seq there)
      → is_refused there (offered (trim_space here.settings.auth_token)) ≡ false
      → is_duplicate here.state there.state.node_id there.state.local_seq ≡ true
      → let served =
          serve_conn peer remote true
            (auth_frame env (trim_space here.settings.auth_token) ∷ simple env type_pull [] ∷ [])
            there in
        ((pull_once env addr (connected served.1) here).dns ≡ here.dns)
        × ((pull_once env addr (connected served.1) here).state ≡ here.state)
  pull_once-unhealed addr remote here there same s a c r d =
      let msg = full_message peer there.state.local_seq there in
      rw (served-pull remote here there same s a r) (
        pull_once-duplicate env addr msg here s c (unfold full_message in refl)
          (unfold full_message in d))
