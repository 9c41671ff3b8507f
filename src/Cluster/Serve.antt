-- ===== src/Cluster/Serve.antt =====
-- cluster/cluster.go: serveConn, the manager's side of a connection. The frames of the connection
-- are those that are read before the connection ends or the context is done; the answers are the
-- frames written, in their order.
pub mod Guarded
use dnsplane.Base.{
  ◌≡◌, Bool, true, false, ◌&&◌, ◌||◌, not, List, [], ◌∷◌, ◌++◌, Option, none, some, is_empty,
  if◌then◌else◌,
}
use dnsplane.Text.{Text, codes, text_eq, trim_space}
use dnsplane.Records.Types.{DnsRecord}
use dnsplane.Cluster.{RecordsFull, receive}
use dnsplane.Cluster.Wire.{
  AuthMessage, AdminConfigApplyMessage, RecordsFullMessage, type_auth, type_auth_ok, type_auth_fail,
  type_records_full, type_pull, type_ping, type_pong, type_error, type_admin_config_apply,
  type_admin_config_ok, type_admin_config_fail,
}
use dnsplane.Cluster.Peers.{record_inbound}
use dnsplane.Cluster.Manager.{Manager, Env, apply_records, apply_admin_config, full_message}

-- `token == "" || auth.Token != token`
unfoldable pub is_refused : Manager → AuthMessage → Bool
is_refused m auth =
    let token = trim_space m.settings.auth_token in is_empty token || not (text_eq auth.token token)

module _ {ℓ} {F : Type ℓ} (env : Env F) where
  -- json.Marshal(SimpleMessage{Type: type, Message: message})
  unfoldable pub simple : Text → Text → F
  simple type message = env.json.encode_simple (record { type = type; message = message })

  unfoldable pub auth_of : F → Option AuthMessage
  auth_of f = elim (env.json.decode_auth f) [
    | none ↦ none
    | some auth ↦ if text_eq auth.type type_auth then some auth else none
  ]

  unfoldable pub admin_of : F → Option AdminConfigApplyMessage
  admin_of f = elim (env.json.decode_admin f) [
    | none ↦ none
    | some msg ↦ if text_eq msg.type type_admin_config_apply then some msg else none
  ]

  unfoldable pub records_of : F → Option (RecordsFull DnsRecord)
  records_of f = elim (env.json.decode_records f) [
    | none ↦ none
    | some msg ↦ if text_eq msg.type type_records_full then some msg.body else none
  ]

  unfoldable pub is_ping : F → Bool
  is_ping f = (env.json.decode_simple f).0 && text_eq (env.json.decode_simple f).1.type type_ping

  -- The test does not ask whether the decoding went well.
  unfoldable pub is_pull : F → Bool
  is_pull f = text_eq (env.json.decode_simple f).1.type type_pull

  -- From the duplicate test to the commits, on the manager.
  unfoldable pub receive_records : RecordsFull DnsRecord → Manager → Manager
  receive_records msg m =
      let got = receive m.settings.policy (apply_records env) msg (m.state, m.dns) in
      record m { state = got.0; dns = got.1 }

  unfoldable pub serve_records : Text → RecordsFull DnsRecord → Manager → Manager
  unfolding receive_records
  serve_records remote msg m =
      receive_records msg (record m { peers = record_inbound env.now remote m.peers })

  unfoldable pub admin_reply : Option Text → F
  admin_reply none = simple type_admin_config_ok []
  admin_reply (some err) = simple type_admin_config_fail err

  unfoldable pub serve_admin : AdminConfigApplyMessage → Manager → Manager × List F
  serve_admin msg m = let done = apply_admin_config env msg m in (done.1, admin_reply done.0 ∷ [])

  -- sendCurrentSnapshot, where the frame is within the limit of WriteFrame
  unfoldable pub current_snapshot : Manager → F
  current_snapshot m = env.json.encode_records (full_message env m.state.local_seq m)

  -- One turn of the loop.
  unfoldable pub serve_frame : Text → F → Manager → Manager × List F
  serve_frame remote f m =
      if is_ping f
      then (m, simple type_pong [] ∷ [])
      else if is_pull f
      then (m, current_snapshot m ∷ [])
      else elim (admin_of f) [
        | some msg ↦ serve_admin msg m
        | none ↦ elim (records_of f) [
          | none ↦ (m, [])
          | some msg ↦ (serve_records remote msg m, [])
        ]
      ]

  unfoldable pub serve_frames : Text → List F → Manager → Manager × List F
  serve_frames remote [] m = (m, [])
  serve_frames remote (f ∷ fs) m =
      let first = serve_frame remote f m in
      let rest = serve_frames remote fs first.0 in (rest.0, first.1 ++ rest.1)

  -- `written` is whether the frame of "auth_ok" could be written.
  unfoldable pub serve_conn : Text → Bool → List F → Manager → Manager × List F
  serve_conn remote written [] m = (m, [])
  serve_conn remote written (f ∷ fs) m = elim (auth_of f) [
    | none ↦ (m, simple type_error (codes "auth required") ∷ [])
    | some auth ↦
        if is_refused m auth
        then (m, simple type_auth_fail (codes "unauthorized") ∷ [])
        else if not written
        then (m, [])
        else ((serve_frames remote fs m).0, simple type_auth_ok [] ∷ (serve_frames remote fs m).1)
  ]
