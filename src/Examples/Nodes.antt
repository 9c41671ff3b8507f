-- ===== src/Examples/Nodes.antt =====
-- Concrete nodes of a cluster and a concrete JSON: cluster/cluster.go and cluster/proto.go.
use dnsplane.Base.{ℕ, ◌≡◌, refl, sym, ap, Bool, true, false, List, [], ◌∷◌, Option, none, some, all}
use mathlib.Core.Option.{some-injective}
use dnsplane.Base.Int.{pos}
use dnsplane.Text.{Text, codes, trim_space, text_eq}
use dnsplane.Records.Types.{DnsRecord, no_record}
use dnsplane.Cluster.Wire.{
  AuthMessage, SimpleMessage, AdminConfigApplyMessage, RecordsFullMessage, Json, SameType,
  type_auth, type_admin_config_apply,
}
use dnsplane.Cluster.Manager.{Manager, Env}
use dnsplane.Cluster.Serve.{serve_conn, auth_of, admin_of}
use dnsplane.Cluster.Serve.Guarded.{
  is_refusal, is_authorized, is_admin_frame, serve_conn-unauthorized, SameSettings,
  serve_conn-SameSettings,
}
use dnsplane.Examples.Data.{store}

-- A frame is the message itself.
pub data Message : Type 0 where
  of_auth : AuthMessage → Message
  of_simple : SimpleMessage → Message
  of_admin : AdminConfigApplyMessage → Message
  of_records : RecordsFullMessage → Message

abbrev read_auth : Message → Option AuthMessage
read_auth (of_auth a) = some a
read_auth (of_simple m) = none
read_auth (of_admin a) = none
read_auth (of_records r) = none

abbrev read_simple : Message → Bool × SimpleMessage
read_simple (of_auth a) = (true, record { type = a.type; message = [] })
read_simple (of_simple m) = (true, m)
read_simple (of_admin a) = (true, record { type = a.type; message = [] })
read_simple (of_records r) = (true, record { type = r.type; message = [] })

abbrev read_admin : Message → Option AdminConfigApplyMessage
read_admin (of_auth a) = none
read_admin (of_simple m) = none
read_admin (of_admin a) = some a
read_admin (of_records r) = none

abbrev read_records : Message → Option RecordsFullMessage
read_records (of_auth a) = none
read_records (of_simple m) = none
read_records (of_admin a) = none
read_records (of_records r) = some r

abbrev json : Json Message
json = record {
  encode_auth = of_auth;
  encode_simple = of_simple;
  encode_admin = of_admin;
  encode_records = of_records;
  decode_auth = read_auth;
  decode_simple = read_simple;
  decode_admin = read_admin;
  decode_records = read_records;
}

pub json-SameType : SameType json
json-SameType (of_auth b) a e = absurd cc
json-SameType (of_simple m) a e = absurd cc
json-SameType (of_admin b) a e =
    ap (λ (x : AdminConfigApplyMessage). x.type) (sym (some-injective _ _ e))
json-SameType (of_records r) a e = absurd cc

abbrev pub env : Env Message
env = record {
  json = json;
  now = 50;
  read_only = false;
  saved = true;
  lookup_srv = λ service proto zone. (none, []);
  join_host_port = λ h p. h;
  dial_address = λ listen. listen;
  fingerprint = λ token. token;
}

abbrev pub node : Text → ℕ → List DnsRecord → Manager
node id seq rs = record {
  state = record {
    node_id = id;
    local_seq = seq;
    peer_seq = [];
    last_global_lww_unix = pos 0;
    last_global_lww_node_id = [];
  };
  dns = record store { resolver_data = record store.resolver_data { dns_records = rs } };
  settings = record {
    enabled = true;
    replica_only = false;
    admin = false;
    auth_token = codes "secret";
    admin_token = codes "admin";
    peers = [];
    sync_interval_seconds = pos 0;
    listen_addr = [];
    advertise_addr = [];
    discovery_srv = [];
    discovery_interval_seconds = pos 0;
    policy = record { sync_policy = []; allowed_writer_node_ids = [] };
  };
  peers = [];
  effective_peers = [];
  last_disc_srv = [];
  last_disc_err = [];
  last_disc_at = 0;
  srv_resolved_count = 0;
}

abbrev pub address : DnsRecord
address = record no_record {
  name = codes "example.com";
  type = codes "A";
  value = codes "10.0.0.1";
}

-- The token of another cluster, followed by the message of an admin.
abbrev wrong_token : Message
wrong_token = of_auth (record { type = type_auth; token = codes "guess" })

abbrev right_token : Message
right_token = of_auth (record { type = type_auth; token = codes "secret" })

abbrev admin_guess : Message
admin_guess = of_admin (record {
  type = type_admin_config_apply;
  admin_token = codes "guess";
  auth_token = codes "mine";
  peers = none;
  replica_only = none;
  reject_local = some true;
  admin_local = none;
  sync_interval = none;
})

serve_conn-unauthorized_example :
    ((serve_conn env (codes "peer") true (wrong_token ∷ admin_guess ∷ []) (node (codes "a") 3 [])).0
      ≡ node (codes "a") 3 [])
    × (all
          (is_refusal env)
          (serve_conn env
            (codes "peer")
            true
            (wrong_token ∷ admin_guess ∷ [])
            (node (codes "a") 3 [])).1
        ≡ true)
unfolding is_authorized auth_of text_eq trim_space
serve_conn-unauthorized_example =
    serve_conn-unauthorized env (codes "peer") true (wrong_token ∷ admin_guess ∷ [])
      (node (codes "a") 3 []) (λ m s t. refl) refl

serve_conn-SameSettings_example :
    SameSettings
      (node (codes "a") 3 [])
      (serve_conn env
        (codes "peer")
        true
        (right_token ∷ admin_guess ∷ [])
        (node (codes "a") 3 [])).0
unfolding is_admin_frame admin_of text_eq trim_space
serve_conn-SameSettings_example =
    serve_conn-SameSettings env (codes "peer") true (right_token ∷ admin_guess ∷ [])
      (node (codes "a") 3 []) refl
