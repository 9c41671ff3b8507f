-- ===== src/Records/Lookup.antt =====
-- FindAllRecords and FindRecord of dnsrecords/dnsrecords.go. The resource records and dns.NewRR are
-- parameters.
use dnsplane.Base.{
  ℕ, Bool, ◌&&◌, not, List, [], ◌∷◌, ◌++◌, Option, none, some, is_empty, if◌then◌else◌,
}
use dnsplane.Text.{Text, codes, dot, text_eq, has_suffix, to_lower, trim_dots, decimal}
use dnsplane.Converters.{convert_reverse_dns_to_ip}
use dnsplane.Records.Types.{DnsRecord}
use dnsplane.Records.Normalize.{
  normalize_record_name_key, normalize_record_type, normalize_record_value_key, is_address_type,
}

-- fmt.Sprintf("%s %d IN %s %s", name, ttl, type, value)
unfoldable pub rr_string : Text → ℕ → Text → Text → Text
rr_string name ttl type value = name ++ b' ' ∷ (decimal ttl ++ codes " IN " ++ type ++ b' ' ∷ value)

-- A domain with its final dot.
unfoldable pub with_final_dot : Text → Text
with_final_dot name =
    let d = trim_dots name in if not (has_suffix d (dot ∷ [])) then d ++ dot ∷ [] else d

-- The list of what an optional record holds: `if err == nil { append }`.
abbrev pub to_list {ℓ} : {A : Type ℓ} → Option A → List A
to_list none = []
to_list (some a) = a ∷ []

module _ {Rr : Type 0} (new_rr : Text → Option Rr) where
  -- The answer that is built from an A or AAAA record whose address is asked for.
  auto_ptr : Text → Text → DnsRecord → List Rr
  auto_ptr lookup_record lookup_ip r =
      if is_address_type r.type
        && not (is_empty lookup_ip)
        && text_eq (normalize_record_value_key r.type r.value) (to_lower lookup_ip)
      then to_list (new_rr (rr_string lookup_record r.ttl (codes "PTR") (with_final_dot r.name)))
      else []

  -- The answer of an explicit PTR record, which is stored under the address.
  explicit_ptr : Text → Text → DnsRecord → List Rr
  explicit_ptr lookup_record lookup_ip r =
      if text_eq r.type (codes "PTR")
        && not (is_empty lookup_ip)
        && text_eq (normalize_record_name_key r.name) (to_lower lookup_ip)
      then to_list (new_rr (rr_string lookup_record r.ttl (codes "PTR") (with_final_dot r.value)))
      else []

  unfoldable pub ptr_answers : Text → Text → Bool → DnsRecord → List Rr
  unfolding auto_ptr explicit_ptr
  ptr_answers lookup_record lookup_ip auto_build r =
      (if auto_build then auto_ptr lookup_record lookup_ip r else [])
      ++ explicit_ptr lookup_record lookup_ip r

  -- The record as a resource record with its own TTL.
  unfoldable pub record_rr : DnsRecord → Option Rr
  record_rr r = new_rr (rr_string r.name r.ttl r.type r.value)

  unfoldable pub plain_answers : Text → Text → DnsRecord → List Rr
  plain_answers name_key type_key r =
      if text_eq (normalize_record_name_key r.name) name_key
        && text_eq (normalize_record_type r.type) type_key
      then to_list (record_rr r)
      else []

  -- The loop, with what each record adds to the results.
  unfoldable pub gather : (DnsRecord → List Rr) → List DnsRecord → List Rr
  gather answers [] = []
  gather answers (r ∷ rs) = answers r ++ gather answers rs

  unfoldable pub find_all_records : List DnsRecord → Text → Text → Bool → List Rr
  unfolding gather ptr_answers plain_answers
  find_all_records rs lookup_record record_type auto_build =
      if text_eq record_type (codes "PTR")
      then gather (ptr_answers lookup_record (convert_reverse_dns_to_ip lookup_record) auto_build)
          rs
      else gather
          (plain_answers (normalize_record_name_key lookup_record)
            (normalize_record_type record_type))
          rs

  unfoldable pub find_record : List DnsRecord → Text → Text → Bool → Option Rr
  unfolding find_all_records
  find_record rs lookup_record record_type auto_build =
      elim (find_all_records rs lookup_record record_type auto_build) [
        | [] ↦ none
        | rr ∷ _ ↦ some rr
      ]
