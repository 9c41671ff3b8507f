-- ===== src/Cluster/Dial.antt =====
-- cluster/cluster.go: the manager's side of the connections that it opens: pushes, pulls, probes
-- and the settings sent to a peer. What the network does is a value: the errors of the dialing and
-- of the writes, and what the reads give. The pushes run one after the other.
pub mod Exchange
pub mod Delivered
use dnsplane.Base.{
  ℕ, ◌≡◌, Bool, true, false, ◌&&◌, ◌||◌, not, List, [], ◌∷◌, ◌++◌, Option, none, some, is_empty,
  is_some, get_elem?, if◌then◌else◌,
}
use dnsplane.Text.{Text, codes, text_eq, trim_space}
use dnsplane.Records.Types.{DnsRecord}
use dnsplane.Cluster.{next_local_seq, RecordsFull, is_duplicate, should_apply_snapshot}
use dnsplane.Cluster.Wire.{
  AuthMessage, SimpleMessage, AdminConfigApplyMessage, RecordsFullMessage, type_auth, type_auth_ok,
  type_records_full, type_pull, type_ping, type_admin_config_apply, type_admin_config_ok,
  type_admin_config_fail,
}
use dnsplane.Cluster.Peers.{record_outbound, record_pull, record_probe}
use dnsplane.Cluster.Manager.{
  Manager, Settings, Env, full_message, list_peer_targets, apply_records,
}
use dnsplane.Cluster.Serve.{simple, records_of, receive_records}

-- What a ReadFrame gives.
pub data Read {ℓ} (F : Type ℓ) : Type ℓ where
  failed : Text → Read F
  got : F → Read F

-- A connection to a peer, as the calls on it go in their order.
pub record Link {ℓ} (F : Type ℓ) : Type ℓ where
  pub dial_error : Option Text
  pub auth_write_error : Option Text
  pub auth_reply : Read F
  pub request_error : Option Text
  pub reply : Read F
  pub rtt_ms : ℕ

pub data AdminError {ℓ} (F : Type ℓ) : Type ℓ where
  not_admin no_auth_token no_admin_token no_peer : AdminError F
  network : Text → AdminError F
  auth_failed : F → AdminError F
  bad_reply : AdminError F
  remote : Text → AdminError F
  unexpected : F → AdminError F

pub data PushError : Type 0 where
  not_enabled is_replica no_token no_address : PushError

-- The frame of this index, or the end of the connection.
unfoldable pub nth_read {ℓ} : {F : Type ℓ} → ℕ → List F → Read F
nth_read i frames = elim (get_elem? frames i) [ none ↦ failed (codes "EOF") | some f ↦ got f ]

-- The connection to a manager that answers with these frames.
unfoldable pub connected {ℓ} : {F : Type ℓ} → List F → Link F
connected frames = record {
  dial_error = none;
  auth_write_error = none;
  auth_reply = nth_read 0 frames;
  request_error = none;
  reply = nth_read 1 frames;
  rtt_ms = 0;
}

module _ {ℓ} {F : Type ℓ} (env : Env F) where
  unfoldable pub auth_frame : Text → F
  auth_frame token = env.json.encode_auth (record { type = type_auth; token = token })

  -- `err != nil || ok.Type != TypeAuthOK`, negated
  unfoldable pub is_auth_ok : F → Bool
  is_auth_ok f =
      (env.json.decode_simple f).0 && text_eq (env.json.decode_simple f).1.type type_auth_ok

  unfoldable pub auth_reply_error : Read F → Option Text
  auth_reply_error (failed err) = some err
  auth_reply_error (got f) = if is_auth_ok f then none else some (codes "auth failed")

  -- The dialing and the exchange of the token, with which every connection starts.
  unfoldable pub handshake : Link F → Option Text
  unfolding auth_reply_error
  handshake link = elim link.dial_error [
    | some err ↦ some err
    | none ↦ elim link.auth_write_error [
      | some err ↦ some err
      | none ↦ auth_reply_error link.auth_reply
    ]
  ]

  -- The error of a request after the handshake.
  unfoldable pub request : Link F → Option Text
  request link = elim (handshake link) [ some err ↦ some err | none ↦ link.request_error ]

  unfoldable pub push_once : Text → Link F → Manager → Manager
  push_once addr link m = record m { peers = record_outbound env.now addr (request link) m.peers }

  unfoldable pub probe_error : Link F → Option Text
  probe_error link = elim (request link) [
    | some err ↦ some err
    | none ↦ elim link.reply [ failed err ↦ some err | got f ↦ none ]
  ]

  unfoldable pub probe_once : Text → Link F → Manager → Manager
  probe_once addr link m = record m {
    peers = record_probe env.now addr link.rtt_ms (probe_error link) m.peers;
  }

  unfoldable pub reply_records : Read F → Option (RecordsFull DnsRecord)
  reply_records (failed err) = none
  reply_records (got f) = records_of env f

  unfoldable pub pulled : Link F → Option (RecordsFull DnsRecord)
  unfolding reply_records
  pulled link = elim (request link) [ some err ↦ none | none ↦ reply_records link.reply ]

  -- What recordPull is told of a snapshot: all went well but for a failing ApplyClusterRecords.
  unfoldable pub is_pull_ok : RecordsFull DnsRecord → Manager → Bool
  is_pull_ok msg m =
      is_duplicate m.state msg.node_id msg.seq
      || not (should_apply_snapshot m.settings.policy m.state msg)
      || is_some (apply_records env msg.records m.dns)

  unfoldable pub pull_once : Text → Link F → Manager → Manager
  pull_once addr link m = elim (pulled link) [
    | none ↦ record m { peers = record_pull env.now addr false m.peers }
    | some msg ↦ record (receive_records env msg m) {
      peers = record_pull env.now addr (is_pull_ok msg m) m.peers;
    }
  ]

  -- One call for each address, with the connection that the network gives for it.
  unfoldable pub for_peers :
      (Text → Link F → Manager → Manager) → (Text → Link F) → List Text → Manager → Manager
  for_peers once links [] m = m
  for_peers once links (p ∷ ps) m = for_peers once links ps (once p (links p) m)

  -- `!cfg.ClusterEnabled` and the test of the token
  unfoldable pub is_ready : Settings → Bool
  is_ready cfg = cfg.enabled && not (is_empty (trim_space cfg.auth_token))

  unfoldable pub pull_from_peers : (Text → Link F) → Manager → Manager
  pull_from_peers links m =
      if is_ready m.settings
      then for_peers pull_once links (list_peer_targets m.settings m) m
      else m

  unfoldable pub probe_all_peers : (Text → Link F) → Manager → Manager
  probe_all_peers links m =
      if is_ready m.settings
      then for_peers probe_once links (list_peer_targets m.settings m) m
      else m

  -- The next number taken, and the payload of the push with it.
  unfoldable pub start_push : Manager → Manager × F
  start_push m =
      let next = next_local_seq m.state in
      let m = record m { state = next.0 } in
      (m, env.json.encode_records (full_message env next.1 m))

  unfoldable pub push_to_all_peers : (Text → Link F) → Manager → Manager × F
  push_to_all_peers links m =
      let started = start_push m in
      (for_peers push_once links (list_peer_targets m.settings m) started.0, started.1)

  -- NotifyLocalRecordsChanged: the manager after the push that it starts, and the payload, if any
  unfoldable pub notify_local_records_changed : (Text → Link F) → Manager → Manager × Option F
  notify_local_records_changed links m =
      let cfg = m.settings in
      if not cfg.enabled || is_empty (list_peer_targets cfg m)
      then (m, none)
      else if cfg.replica_only
      then (m, none)
      else if env.read_only
      then (m, none)
      else if is_empty (trim_space cfg.auth_token)
      then (m, none)
      else ((push_to_all_peers links m).0, some (push_to_all_peers links m).1)

  -- PushRecordsToPeer: the number is taken before the address is looked at.
  unfoldable pub push_records_to_peer :
      Text → (Text → Link F) → Manager → Option PushError × Manager
  push_records_to_peer addr links m =
      let cfg = m.settings in
      let started = start_push m in
      let p = trim_space addr in
      if not cfg.enabled
      then (some not_enabled, m)
      else if cfg.replica_only
      then (some is_replica, m)
      else if is_empty (trim_space cfg.auth_token)
      then (some no_token, m)
      else if is_empty p
      then (some no_address, started.0)
      else (none, push_once p (links p) started.0)

  -- The frame that AdminPushConfig sends.
  unfoldable pub admin_frame : AdminConfigApplyMessage → Settings → F
  admin_frame apply cfg =
      env.json.encode_admin
        (record apply { type = type_admin_config_apply; admin_token = trim_space cfg.admin_token })

  unfoldable pub acknowledged : F → Option (AdminError F)
  acknowledged resp =
      let ack = env.json.decode_simple resp in
      if not ack.0
      then some bad_reply
      else if text_eq ack.1.type type_admin_config_fail
      then some (remote ack.1.message)
      else if not (text_eq ack.1.type type_admin_config_ok)
      then some (unexpected resp)
      else none

  unfoldable pub admin_handshake : Link F → Option (AdminError F)
  admin_handshake link = elim link.dial_error [
    | some err ↦ some (network err)
    | none ↦ elim link.auth_write_error [
      | some err ↦ some (network err)
      | none ↦ elim link.auth_reply [
        | failed err ↦ some (network err)
        | got f ↦ if is_auth_ok f then none else some (auth_failed f)
      ]
    ]
  ]

  unfoldable pub admin_request : Link F → Option (AdminError F)
  admin_request link = elim (admin_handshake link) [
    | some err ↦ some err
    | none ↦ elim link.request_error [
      | some err ↦ some (network err)
      | none ↦ elim link.reply [ failed err ↦ some (network err) | got f ↦ acknowledged f ]
    ]
  ]

  unfoldable pub admin_push_config : Text → (Text → Link F) → Manager → Option (AdminError F)
  admin_push_config addr links m =
      let cfg = m.settings in
      let p = trim_space addr in
      if not cfg.admin
      then some not_admin
      else if is_empty (trim_space cfg.auth_token)
      then some no_auth_token
      else if is_empty (trim_space cfg.admin_token)
      then some no_admin_token
      else if is_empty p
      then some no_peer
      else admin_request (links p)
