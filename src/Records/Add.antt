-- ===== src/Records/Add.antt =====
-- AddRecord, addRecordInternal and UpdateRecordByID of dnsrecords/dnsrecords.go. What time.Now and
-- NewRecordID return is an argument. The slice that an operation returns takes the place of the one
-- that it was given: the write into the given array, which Go shares, is not seen otherwise.
use dnsplane.Base.{
  ℕ, Bool, false, ◌||◌, ◌&&◌, not, List, [], ◌∷◌, ◌++◌, Option, none, some, is_empty, get_elem?,
  set, ◌==◌, if◌then◌else◌,
}
use mathlib.Core.Option
use dnsplane.Text.{Text, codes, text_eq, trim_space}
use dnsplane.Library.{DnsLibrary}
use dnsplane.IpValidator.{is_valid_ip}
use dnsplane.Records.Types.{
  DnsRecord, Level, info, warn, Message, message, Wording, says, of_record, of_text, invalid_args,
  Outcome, done, refused,
}
use dnsplane.Records.Normalize.{canonicalize_record_name, normalize_record_type, is_address_type}
use dnsplane.Records.Find.{find_dns_record_index_by_id, find_dns_record_index}

-- What the calls of time.Now and NewRecordID return, in the order of the calls.
pub record Readings : Type 0 where
  pub now : ℕ
  pub now_added : ℕ
  pub now_updated : ℕ
  pub new_id : Text

-- `existing` stands at `i` and may be replaced.
unfoldable pub replace_existing :
    Readings → DnsRecord → ℕ → DnsRecord → List DnsRecord → Outcome DnsRecord
replace_existing env old i r rs =
    let with_id = if is_empty (trim_space r.id) then old.id else r.id in
    let id = if is_empty (trim_space with_id) then env.new_id else with_id in
    let new = record r { id = id; updated_on = env.now_updated } in
    done (set rs i new) (
      message info (says "Existing record found. Updating...")
      ∷ message info (of_record "Previous: %v" old)
      ∷ message info (of_record "Current : %v" new)
      ∷ [])

unfoldable pub report_existing : DnsRecord → DnsRecord → List DnsRecord → Outcome DnsRecord
report_existing old r rs = done rs (
    message warn (says "A record already exists.")
    ∷ message warn (of_record "Attempted: %v" r)
    ∷ message warn (of_record "Current  : %v" old)
    ∷ [])

unfoldable pub append_record : DnsRecord → List DnsRecord → Outcome DnsRecord
append_record r rs = done (rs ++ r ∷ []) (message info (of_record "Added: %v" r) ∷ [])

unfoldable pub insert_new : Readings → DnsRecord → List DnsRecord → Outcome DnsRecord
insert_new env r rs =
    let id = trim_space r.id in
    if is_empty id
    then append_record (record r { id = env.new_id }) rs
    else elim (find_dns_record_index_by_id rs id) [
      | some _ ↦
          refused rs (message Level.error (of_text "a record with id %q already exists" id) ∷ [])
            invalid_args
      | none ↦ append_record r rs
    ]

-- Past the index `i` of the first match, if there is one.
unfoldable pub add_at :
    Readings → Bool → DnsRecord → List DnsRecord → Option ℕ → Option DnsRecord → Outcome DnsRecord
add_at env allow_update r rs (some i) (some old) =
    if allow_update then replace_existing env old i r rs else report_existing old r rs
add_at env allow_update r rs (some i) none = done rs []
add_at env allow_update r rs none _ = insert_new env r rs

-- dnsRecords[i], where -1 stands for no index
abbrev pub record_at : List DnsRecord → Option ℕ → Option DnsRecord
record_at rs none = none
record_at rs (some i) = get_elem? rs i

-- The record as addRecordInternal stores it.
unfoldable pub prepared : Readings → DnsRecord → DnsRecord
prepared env r = record r {
  name = canonicalize_record_name r.name;
  type = normalize_record_type r.type;
  added_on = if r.added_on == 0 then env.now_added else r.added_on;
}

unfoldable pub add_record_internal :
    Readings → DnsRecord → List DnsRecord → Bool → Outcome DnsRecord
add_record_internal env r rs allow_update =
    let new = prepared env r in
    let i = find_dns_record_index rs new.name new.type new.value in
    add_at env allow_update new rs i (record_at rs i)

-- the types whose value must be a domain name
abbrev is_domain_valued : Text → Bool
is_domain_valued t =
    text_eq t (codes "CNAME")
    || text_eq t (codes "NS")
    || text_eq t (codes "PTR")
    || text_eq t (codes "TXT")
    || text_eq t (codes "SRV")
    || text_eq t (codes "SOA")
    || text_eq t (codes "MX")
    || text_eq t (codes "NAPTR")
    || text_eq t (codes "CAA")
    || text_eq t (codes "TLSA")
    || text_eq t (codes "DS")
    || text_eq t (codes "DNSKEY")
    || text_eq t (codes "RRSIG")
    || text_eq t (codes "NSEC")
    || text_eq t (codes "NSEC3")
    || text_eq t (codes "NSEC3PARAM")

-- `other != -1 && other != idx`
abbrev pub is_other : Option ℕ → ℕ → Bool
is_other none i = false
is_other (some j) i = not (j == i)

-- The write of UpdateRecordByID: what the caller leaves out comes from the old record.
unfoldable pub overwrite : Readings → Text → DnsRecord → DnsRecord → DnsRecord
overwrite env id old r = record r {
  id = id;
  added_on = old.added_on;
  mac_address = if is_empty r.mac_address then old.mac_address else r.mac_address;
  cache_record = old.cache_record;
  last_query = old.last_query;
  updated_on = env.now_updated;
}

-- name, value and type as AddRecord and UpdateRecordByID clean them, the TTL 3600 in place of 0
unfoldable pub cleaned : DnsRecord → DnsRecord
cleaned r = record r {
  name = canonicalize_record_name r.name;
  value = trim_space r.value;
  type = normalize_record_type r.type;
  ttl = if r.ttl == 0 then 3600 else r.ttl;
}

module _ (lib : DnsLibrary) where
  -- The error that validateRecordValue returns.
  unfoldable pub validate_record_value : Text → Text → Option Wording
  validate_record_value type value =
      if is_address_type type
      then (if is_valid_ip lib value then none else some (of_text "invalid IP address: %s" value))
      else if is_domain_valued type && not (lib.is_domain_name value)
      then some (of_text "invalid domain name: %s" value)
      else none

  -- The checks that AddRecord and UpdateRecordByID share, on a trimmed record: the message of the
  -- first that fails.
  unfoldable pub check_fields : DnsRecord → Option Message
  check_fields r =
      if is_empty r.name || is_empty r.type || is_empty r.value
      then some (message Level.error (says "name, type, and value are required"))
      else if not (lib.string_to_type r.type)
      then some (message Level.error (of_text "invalid DNS record type: %s" r.type))
      else Option.map (λ w. message Level.error w) (validate_record_value r.type r.value)

  unfoldable pub add_record : Readings → DnsRecord → List DnsRecord → Bool → Outcome DnsRecord
  add_record env r rs allow_update =
      let new = cleaned r in
      elim (check_fields new) [
        | some m ↦ refused rs (m ∷ []) invalid_args
        | none ↦ add_record_internal env (record new { added_on = env.now }) rs allow_update
      ]

  -- UpdateRecordByID past the search for the id
  unfoldable pub update_at :
      Readings → Text → DnsRecord → List DnsRecord → ℕ → DnsRecord → Outcome DnsRecord
  update_at env id r rs i old =
      let new = cleaned r in
      elim (check_fields new) [
        | some m ↦ refused rs (m ∷ []) invalid_args
        | none ↦
            if is_other (find_dns_record_index rs new.name new.type new.value) i
            then refused rs
                (message warn (says "A record already exists with the same name, type, and value.")
                  ∷ [])
                invalid_args
            else done (set rs i (overwrite env id old new))
                (message info (of_text "Updated record id=%s" id) ∷ [])
      ]

  unfoldable pub update_found :
      Readings → Text → DnsRecord → List DnsRecord → Option ℕ → Option DnsRecord → Outcome DnsRecord
  update_found env id r rs (some i) (some old) = update_at env id r rs i old
  update_found env id r rs _ _ =
      refused rs (message Level.error (says "no record with that id") ∷ []) invalid_args

  unfoldable pub update_record_by_id :
      Readings → Text → DnsRecord → List DnsRecord → Outcome DnsRecord
  update_record_by_id env id r rs =
      let key = trim_space id in
      if is_empty key
      then refused rs (message Level.error (says "id is required") ∷ []) invalid_args
      else let i = find_dns_record_index_by_id rs key in
        update_found env key r rs i (record_at rs i)
