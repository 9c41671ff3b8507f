-- ===== src/Cluster/Wire.antt =====
-- cluster/proto.go: the messages that the peers exchange, and the reading and writing of their
-- JSON, which is a parameter: the frames are of any type with the encoders and decoders below.
use dnsplane.Base.{◌≡◌, Bool, true, List, Option, some, all, ltb}
use dnsplane.Base.Int.{ℤ}
use dnsplane.Text.{Text, codes}
use dnsplane.Records.Types.{DnsRecord}
use dnsplane.Cluster.{RecordsFull}

pub record AuthMessage : Type 0 where
  pub type : Text
  pub token : Text

-- A message of any type, read for its type and its text only.
pub record SimpleMessage : Type 0 where
  pub type : Text
  pub message : Text

pub record AdminConfigApplyMessage : Type 0 where
  pub type : Text
  pub admin_token : Text
  pub auth_token : Text
  pub peers : Option (List Text)
  pub replica_only : Option Bool
  pub reject_local : Option Bool
  pub admin_local : Option Bool
  pub sync_interval : Option ℤ

-- RecordsFullMessage with its type.
pub record RecordsFullMessage : Type 0 where
  pub type : Text
  pub body : RecordsFull DnsRecord

-- json.Marshal and json.Unmarshal at the types of the messages. Unmarshal into a SimpleMessage gives
-- what it has filled in when it fails, too.
pub record Json {ℓ} (F : Type ℓ) : Type ℓ where
  pub encode_auth : AuthMessage → F
  pub encode_simple : SimpleMessage → F
  pub encode_admin : AdminConfigApplyMessage → F
  pub encode_records : RecordsFullMessage → F
  pub decode_auth : F → Option AuthMessage
  pub decode_simple : F → Bool × SimpleMessage
  pub decode_admin : F → Option AdminConfigApplyMessage
  pub decode_records : F → Option RecordsFullMessage

abbrev pub type_auth : Text
type_auth = codes "auth"

abbrev pub type_auth_ok : Text
type_auth_ok = codes "auth_ok"

abbrev pub type_auth_fail : Text
type_auth_fail = codes "auth_fail"

abbrev pub type_records_full : Text
type_records_full = codes "records_full"

abbrev pub type_pull : Text
type_pull = codes "pull"

abbrev pub type_ping : Text
type_ping = codes "ping"

abbrev pub type_pong : Text
type_pong = codes "pong"

abbrev pub type_error : Text
type_error = codes "error"

abbrev pub type_admin_config_apply : Text
type_admin_config_apply = codes "admin_config_apply"

abbrev pub type_admin_config_ok : Text
type_admin_config_ok = codes "admin_config_ok"

abbrev pub type_admin_config_fail : Text
type_admin_config_fail = codes "admin_config_fail"

-- A message of ASCII text, which JSON carries unchanged.
abbrev pub is_ascii : Text → Bool
is_ascii t = all (λ c. ltb c 128) t

abbrev pub CarriesSimple {ℓ} : {F : Type ℓ} → Json F → Type 0
CarriesSimple j =
    (m : SimpleMessage)
    → is_ascii m.type ≡ true
    → is_ascii m.message ≡ true
    → j.decode_simple (j.encode_simple m) ≡ (true, m)

abbrev pub CarriesAuth {ℓ} : {F : Type ℓ} → Json F → AuthMessage → Type 0
CarriesAuth j a = j.decode_auth (j.encode_auth a) ≡ some a

-- The frame of a snapshot is read as that snapshot, and for its type as one of that type.
abbrev pub CarriesRecords {ℓ} : {F : Type ℓ} → Json F → RecordsFullMessage → Type 0
CarriesRecords j msg =
    (j.decode_records (j.encode_records msg) ≡ some msg)
    × ((j.decode_simple (j.encode_records msg)).1.type ≡ msg.type)

-- The type that is read of a frame does not depend on what it is read as.
abbrev pub SameType {ℓ} : {F : Type ℓ} → Json F → Type ℓ
SameType {F = F} j =
    (f : F) (a : AdminConfigApplyMessage)
    → j.decode_admin f ≡ some a
    → a.type ≡ (j.decode_simple f).1.type
