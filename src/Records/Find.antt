-- ===== src/Records/Find.antt =====
-- findDNSRecordIndexByID and findDNSRecordIndex of dnsrecords/dnsrecords.go. The index -1 is `none`.
use dnsplane.Base.{ℕ, Bool, ◌&&◌, List, Option, none, is_empty, index_of, if◌then◌else◌}
use dnsplane.Text.{Text, text_eq, trim_space}
use dnsplane.Records.Types.{DnsRecord}
use dnsplane.Records.Normalize.{
  normalize_record_name_key, normalize_record_type, normalize_record_value_key,
}

unfoldable pub find_dns_record_index_by_id : List DnsRecord → Text → Option ℕ
find_dns_record_index_by_id rs id =
    let key = trim_space id in
    if is_empty key then none else index_of (λ r. text_eq (trim_space r.id) key) rs

-- The record's three keys are the three given ones.
unfoldable pub matches_keys : Text → Text → Text → DnsRecord → Bool
matches_keys name_key type_key value_key r =
    text_eq (normalize_record_name_key r.name) name_key
    && text_eq (normalize_record_type r.type) type_key
    && text_eq (normalize_record_value_key r.type r.value) value_key

unfoldable pub find_dns_record_index : List DnsRecord → Text → Text → Text → Option ℕ
find_dns_record_index rs name type value =
    let target_name = normalize_record_name_key name in
    let target_type = normalize_record_type type in
    let target_value = normalize_record_value_key target_type value in
    index_of (matches_keys target_name target_type target_value) rs
