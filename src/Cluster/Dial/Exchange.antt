-- ===== src/Cluster/Dial/Exchange.antt =====
-- cluster/cluster.go: the frames of a pull and of a push, read and answered.
use dnsplane.Base.{
  ◌≡◌, refl, ◌∙◌, true, false, List, [], ◌∷◌, none, some, arith, Option-cases, inl, inr,
}
use dnsplane.Text.{Text, text_eq}
use dnsplane.Text.Equality.{text_eq_refl}
use dnsplane.Records.Types.{DnsRecord}
use dnsplane.Data.{set_records, canonical_records}
use dnsplane.Cluster.{RecordsFull, receive, is_duplicate, should_apply_snapshot, commit_peer_seq}
use dnsplane.Cluster.Sequence.{after_commit, is_duplicate-commit_policy}
use dnsplane.Cluster.Wire.{
  AuthMessage, RecordsFullMessage, CarriesSimple, CarriesAuth, CarriesRecords, SameType, type_auth,
  type_auth_ok, type_pull, type_records_full,
}
use dnsplane.Cluster.Applied.{apply_records-writable}
use dnsplane.Cluster.Manager.{Manager, Env}
use dnsplane.Cluster.Serve.{
  simple, auth_of, admin_of, records_of, is_refused, serve_conn, serve_frame, serve_frames,
  serve_records, receive_records, is_ping, is_pull, current_snapshot,
}
use dnsplane.Cluster.Dial.{
  connected, nth_read, pull_once, auth_frame, is_auth_ok, handshake, request, pulled,
  auth_reply_error, reply_records,
}

-- The message with which a node offers its token.
abbrev pub offered : Text → AuthMessage
offered token = record { type = type_auth; token = token }

module _ {ℓ} {F : Type ℓ} (env : Env F) where
  -- The snapshot is news to the node, and its policy takes it.
  unfoldable pub IsWelcome : RecordsFull DnsRecord → Manager → Type 0
  IsWelcome msg m =
      (is_duplicate m.state msg.node_id msg.seq ≡ false)
      × (should_apply_snapshot m.settings.policy m.state msg ≡ true)
      × (env.read_only ≡ false)

  -- The node has the records of the snapshot, and counts the snapshot as seen.
  unfoldable pub HasTaken : RecordsFull DnsRecord → Manager → Type 0
  HasTaken msg m =
      (m.dns.resolver_data.dns_records ≡ canonical_records msg.records)
      × (is_duplicate m.state msg.node_id msg.seq ≡ true)

  receive_records-HasTaken :
      (msg : RecordsFull DnsRecord) (m : Manager)
      → IsWelcome msg m
      → HasTaken msg (receive_records env msg m)
  unfolding IsWelcome HasTaken receive_records receive canonical_records is_duplicate
  receive_records-HasTaken msg m (n, e, w) =
      let a = apply_records-writable env msg.records m.dns w in
      rw (receive, n, e, a)
        (
          unfold set_records in refl,
          is_duplicate-commit_policy m.settings.policy msg
                (commit_peer_seq msg.node_id msg.seq m.state) msg.node_id msg.seq
              ∙ after_commit m.state msg.node_id msg.seq,
        )

  auth_of-auth_frame :
      (token : Text)
      → CarriesAuth env.json (offered token)
      → auth_of env (auth_frame env token) ≡ some (offered token)
  unfolding auth_frame text_eq auth_of
  auth_of-auth_frame token c = rw (auth_of, c) refl

  is_auth_ok-simple : CarriesSimple env.json → is_auth_ok env (simple env type_auth_ok []) ≡ true
  unfolding is_auth_ok simple text_eq
  is_auth_ok-simple c = rw (c (record { type = type_auth_ok; message = [] }) refl refl) refl

  records_of-encoded :
      (msg : RecordsFullMessage)
      → msg.type ≡ type_records_full
      → CarriesRecords env.json msg
      → records_of env (env.json.encode_records msg) ≡ some msg.body
  unfolding records_of
  records_of-encoded msg t c = rw (records_of, c.0, t, text_eq_refl) refl

  auth_accepted :
      (remote token : Text) (fs : List F) (m : Manager)
      → CarriesAuth env.json (offered token)
      → is_refused m (offered token) ≡ false
      → serve_conn env remote true (auth_frame env token ∷ fs) m ≡ (
        (serve_frames env remote fs m).0,
        simple env type_auth_ok [] ∷ (serve_frames env remote fs m).1,
      )
  unfolding serve_conn
  auth_accepted remote token fs m a r = rw (serve_conn, auth_of-auth_frame token a, r) refl

  serve_frame-pull :
      (remote : Text) (m : Manager)
      → CarriesSimple env.json
      → serve_frame env remote (simple env type_pull []) m ≡ (m, current_snapshot env m ∷ [])
  unfolding serve_frame is_ping is_pull simple text_eq
  serve_frame-pull remote m c = rw (c (record { type = type_pull; message = [] }) refl refl) refl

  no_admin :
      (f : F)
      → SameType env.json
      → (env.json.decode_simple f).1.type ≡ type_records_full
      → admin_of env f ≡ none
  unfolding admin_of text_eq
  no_admin f s kind = elim (Option-cases (env.json.decode_admin f)) [
    | inl e ↦ rw (admin_of, e) refl
    | inr (a, e) ↦ rw (admin_of, e, s f a e, kind) refl
  ]

  serve_frame-records :
      (remote : Text) (m : Manager) (msg : RecordsFullMessage)
      → SameType env.json
      → CarriesRecords env.json msg
      → msg.type ≡ type_records_full
      → serve_frame env remote (env.json.encode_records msg) m
        ≡ (serve_records env remote msg.body m, [])
  unfolding serve_frame
  serve_frame-records remote m msg s c t =
      let f = env.json.encode_records msg in
      let kind : (env.json.decode_simple f).1.type ≡ type_records_full = c.1 ∙ t in
      let ping : is_ping env f ≡ false =
        unfold is_ping in rw kind (unfold text_eq in ground arith) in
      let pull : is_pull env f ≡ false = unfold is_pull in rw kind (unfold text_eq in refl) in
      let admin : admin_of env f ≡ none = no_admin f s kind in
      rw (ping, pull, serve_frame, admin, records_of-encoded msg t c) refl

  pub connected-ok :
      (rest : List F)
      → CarriesSimple env.json
      → request env (connected (simple env type_auth_ok [] ∷ rest)) ≡ none
  unfolding connected nth_read request handshake
  connected-ok rest c = rw (request, handshake, auth_reply_error, is_auth_ok-simple c) refl

  pub serve_conn-pull :
      (remote token : Text) (m : Manager)
      → CarriesSimple env.json
      → CarriesAuth env.json (offered token)
      → is_refused m (offered token) ≡ false
      → serve_conn env remote true (auth_frame env token ∷ simple env type_pull [] ∷ []) m
        ≡ (m, simple env type_auth_ok [] ∷ current_snapshot env m ∷ [])
  serve_conn-pull remote token m s a r =
      rw (auth_accepted remote token (simple env type_pull [] ∷ []) m a r)
        (unfold serve_frames in rw (serve_frame-pull remote m s) refl)

  pub serve_conn-push :
      (remote token : Text) (m : Manager) (msg : RecordsFullMessage)
      → CarriesAuth env.json (offered token)
      → CarriesRecords env.json msg
      → SameType env.json
      → is_refused m (offered token) ≡ false
      → msg.type ≡ type_records_full
      → serve_conn env remote true (auth_frame env token ∷ env.json.encode_records msg ∷ []) m
        ≡ (serve_records env remote msg.body m, simple env type_auth_ok [] ∷ [])
  serve_conn-push remote token m msg a c k r t =
      rw (auth_accepted remote token (env.json.encode_records msg ∷ []) m a r)
        (unfold serve_frames in rw (serve_frame-records remote m msg k c t) refl)

  pub pulled-connected :
      (msg : RecordsFullMessage)
      → CarriesSimple env.json
      → CarriesRecords env.json msg
      → msg.type ≡ type_records_full
      → pulled env (connected (simple env type_auth_ok [] ∷ env.json.encode_records msg ∷ []))
        ≡ some msg.body
  unfolding pulled
  pulled-connected msg s c t =
      rw (pulled, connected-ok (env.json.encode_records msg ∷ []) s)
        (unfold connected nth_read reply_records in records_of-encoded msg t c)

  pub pull_once-HasTaken :
      (addr : Text) (msg : RecordsFullMessage) (m : Manager)
      → CarriesSimple env.json
      → CarriesRecords env.json msg
      → msg.type ≡ type_records_full
      → IsWelcome msg.body m
      → HasTaken msg.body (
          pull_once env addr
            (connected (simple env type_auth_ok [] ∷ env.json.encode_records msg ∷ []))
            m)
  unfolding HasTaken pull_once canonical_records is_duplicate
  pull_once-HasTaken addr msg m s c t w =
      rw (pull_once, pulled-connected msg s c t) (receive_records-HasTaken msg.body m w)

  pub pull_once-duplicate :
      (addr : Text) (msg : RecordsFullMessage) (m : Manager)
      → CarriesSimple env.json
      → CarriesRecords env.json msg
      → msg.type ≡ type_records_full
      → is_duplicate m.state msg.body.node_id msg.body.seq ≡ true
      → let after =
          pull_once env addr
            (connected (simple env type_auth_ok [] ∷ env.json.encode_records msg ∷ []))
            m in
        (after.dns ≡ m.dns) × (after.state ≡ m.state)
  unfolding pull_once receive_records receive
  pull_once-duplicate addr msg m s c t d =
      rw (pull_once, pulled-connected msg s c t, d) (refl, refl)

  pub serve_records-HasTaken :
      (remote : Text) (msg : RecordsFull DnsRecord) (m : Manager)
      → IsWelcome msg m
      → HasTaken msg (serve_records env remote msg m)
  unfolding serve_records IsWelcome
  serve_records-HasTaken remote msg m w = receive_records-HasTaken msg _ w
