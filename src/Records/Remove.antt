-- ===== src/Records/Remove.antt =====
-- Remove and RemoveRecordByID of dnsrecords/dnsrecords.go.
use dnsplane.Base.{
  ℕ, suc, ◌||◌, List, [], ◌∷◌, Option, none, some, is_empty, remove_at, if◌then◌else◌,
}
use dnsplane.Text.{Text, text_eq, trim_space}
use dnsplane.Library.{DnsLibrary}
use dnsplane.Cliutil.{is_help_request}
use dnsplane.Records.Types.{
  DnsRecord, Level, info, warn, message, says, of_record, of_text, of_texts, help_requested,
  invalid_args, Outcome, done, refused, usage_remove,
}
use dnsplane.Records.Normalize.{normalize_record_name_key}
use dnsplane.Records.Find.{find_dns_record_index_by_id, find_dns_record_index}
use dnsplane.Records.Add.{record_at}
use dnsplane.Records.Args.{Parts, validate_ip_and_domain}

-- `dnsRecords` without the record at the index, which is there.
unfoldable pub remove_found : List DnsRecord → ℕ → Option DnsRecord → Outcome DnsRecord
remove_found rs i none = done rs []
remove_found rs i (some old) =
    done (remove_at rs i) (message info (of_record "Removed: %v" old) ∷ [])

-- The records whose name has the key: none, one with its index, or several.
pub data Matched : Type 0 where
  absent several : Matched
  only : ℕ → DnsRecord → Matched

-- The loop of `case 1`, from the index `i` on, with what was found before.
unfoldable pub match_name : Text → List DnsRecord → ℕ → Matched → Matched
match_name key [] i found = found
match_name key (r ∷ rs) i several = several
match_name key (r ∷ rs) i absent =
    match_name key rs (suc i)
      (if text_eq (normalize_record_name_key r.name) key then only i r else absent)
match_name key (r ∷ rs) i (only j old) =
    match_name key rs (suc i)
      (if text_eq (normalize_record_name_key r.name) key then several else only j old)

invalid_format : List DnsRecord → Outcome DnsRecord
invalid_format rs =
    refused rs
      (message Level.error (says "invalid record format. Please use: remove <Name> [Type] <Value>")
        ∷ usage_remove)
      invalid_args

-- Remove past the switch: the name, type and value, and the index if it is known.
unfoldable pub remove_parts : List DnsRecord → Parts → Option ℕ → Outcome DnsRecord
unfolding invalid_format
remove_parts rs p known =
    if is_empty p.name || is_empty p.type || is_empty p.value
    then invalid_format rs
    else elim known [
      | some i ↦ remove_found rs i (record_at rs (some i))
      | none ↦ elim (find_dns_record_index rs p.name p.type p.value) [
        | some i ↦ remove_found rs i (record_at rs (some i))
        | none ↦
            refused rs
              (message warn
                  (of_texts "No record found for [%s %s %s]." (p.name ∷ p.type ∷ p.value ∷ []))
                ∷ usage_remove)
              invalid_args
      ]
    ]

unfoldable pub remove_by_name : List DnsRecord → Text → Matched → Outcome DnsRecord
remove_by_name rs name several =
    refused rs
      (message warn (of_text "Multiple records match %s. Please include type and value." name)
        ∷ usage_remove)
      invalid_args
remove_by_name rs name absent = remove_parts rs (record { name = name; value = []; type = [] }) none
remove_by_name rs name (only i r) =
    remove_parts rs (record { name = name; value = r.value; type = r.type }) (some i)

module _ (lib : DnsLibrary) where
  unfoldable pub remove_args : List Text → List DnsRecord → Outcome DnsRecord
  unfolding invalid_format
  remove_args [] rs =
      refused rs
        (message Level.error (says "remove requires at least a record name.") ∷ usage_remove)
        invalid_args
  remove_args (a ∷ []) rs =
      let name = trim_space a in
      if is_empty name
      then refused rs (message Level.error (says "record name cannot be empty.") ∷ usage_remove)
          invalid_args
      else remove_by_name rs name (match_name (normalize_record_name_key name) rs 0 absent)
  remove_args (a ∷ b ∷ []) rs =
      let p = validate_ip_and_domain lib a b in
      if is_empty p.name || is_empty p.type then invalid_format rs else remove_parts rs p none
  remove_args (a ∷ b ∷ c ∷ []) rs =
      remove_parts rs (record { name = trim_space a; value = c; type = b }) none
  remove_args (_ ∷ _ ∷ _ ∷ _ ∷ _) rs = invalid_format rs

  unfoldable pub remove : List Text → List DnsRecord → Outcome DnsRecord
  remove full_command rs =
      if is_help_request full_command
      then refused rs usage_remove help_requested
      else remove_args full_command rs

unfoldable pub remove_record_by_id : Text → List DnsRecord → Outcome DnsRecord
remove_record_by_id id rs =
    let key = trim_space id in
    if is_empty key
    then refused rs (message Level.error (says "id is required") ∷ []) invalid_args
    else elim (find_dns_record_index_by_id rs key) [
      | none ↦ refused rs (message warn (says "no record with that id") ∷ []) invalid_args
      | some i ↦ remove_found rs i (record_at rs (some i))
    ]
