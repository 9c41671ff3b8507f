-- ===== src/Examples/Stores.antt =====
-- Concrete records and cache entries: dnsrecords/, dnsrecordcache/ and data/lookup_index.go.
use dnsplane.Base.{not, filter, ◌≡◌, refl, Bool, true, false, ◌&&◌, List, [], ◌∷◌, any, ltb}
use dnsplane.Text.{
  codes, is_dot, text_eq, to_lower, lower, trim_space, trim_left, trim_right, keep_head, is_space,
  trim_dots,
}
use dnsplane.Library.{sample_library, sample_rrs, SampleRr}
use dnsplane.Records.Types.{DnsRecord, no_record}
use dnsplane.Records.Normalize.{canonicalize_record_name, normalize_record_name_key}
use dnsplane.Base.{none}
use dnsplane.Base.Unique.{has}
use dnsplane.Records.Found.{has-add_record}
use dnsplane.Records.Find.{find_dns_record_index, find_dns_record_index_by_id, matches_keys}
use dnsplane.Records.Normalize.{normalize_record_value_key, normalize_record_type}
use dnsplane.Text.{to_upper, upper}
use dnsplane.Records.Add.{
  Readings, add_record, prepared, cleaned, check_fields, validate_record_value, add_record_internal,
  add_at, insert_new, append_record,
}
use dnsplane.Records.Keys.{KeysDistinct, same_key, key}
use dnsplane.Records.History.{
  Call, call_add, call_add_record, call_update, call_remove, call_remove_by_id, run,
  run-KeysDistinct,
}
use dnsplane.Records.Lookup.{find_all_records}
use dnsplane.Cache.{CacheRecord, Clock, add, entry_of, value_of}
use dnsplane.Cache.Stored.{is_under, after_first, first_timestamp, IsRenewed, add-IsRenewed}
use dnsplane.LookupIndex.Index.{lookup_local_non_ptr, build_dns_record_index}
use dnsplane.LookupIndex.Answer.{ResolverData, warm_indexes, search_cache}
use dnsplane.LookupIndex.Coherent.{lookup_local_non_ptr-eq-find_all_records}
use dnsplane.LookupIndex.Fresh.{Finds, answers, search_cache-Finds}

abbrev readings : Readings
readings = record { now = 10; now_added = 11; now_updated = 12; new_id = codes "id7" }

abbrev nas : DnsRecord
nas = record no_record {
  id = codes "id1";
  name = codes "nas.lan";
  type = codes "A";
  value = codes "10.0.0.5";
}

abbrev web : DnsRecord
web = record no_record {
  id = codes "id2";
  name = codes "Web.lan.";
  type = codes "a";
  value = codes "10.0.0.6";
}

-- Two records, one of them added twice, a change of the second into the first, and removals.
abbrev calls : List Call
calls =
    call_add_record readings nas false
    ∷ call_add_record readings web true
    ∷ call_add_record readings nas true
    ∷ call_add readings (codes "mail.lan" ∷ codes "A" ∷ codes "10.0.0.7" ∷ []) false
    ∷ call_update readings (codes "id2") nas
    ∷ call_remove (codes "mail.lan" ∷ [])
    ∷ call_remove_by_id (codes "id9")
    ∷ []

run-KeysDistinct_example : KeysDistinct (run sample_library calls [])
run-KeysDistinct_example = run-KeysDistinct sample_library calls

abbrev clock : Clock
clock = record { at_expiry = 100; at_timestamp = 101; at_query = 102 }

abbrev reply : SampleRr
reply = record { name = codes "example.com."; type = codes "A"; ttl = 30 }

abbrev no_entries : List CacheRecord
no_entries = []

abbrev kept : CacheRecord
kept = entry_of sample_rrs clock reply 60

add-IsRenewed_example :
    let p =
      is_under
        (codes "example.com.")
        (codes "A")
        (value_of sample_rrs reply (sample_rrs.view reply)) in
    let after = add sample_rrs clock (kept ∷ []) reply 60 in
    (filter (λ c. not (p c)) after ≡ filter (λ c. not (p c)) (kept ∷ []))
    × (c : CacheRecord) × (filter p after ≡ c ∷ after_first (filter p (kept ∷ [])))
    × IsRenewed clock 30 60 c
    × (c.timestamp ≡ first_timestamp 101 (filter p (kept ∷ [])))
add-IsRenewed_example = add-IsRenewed sample_rrs clock (kept ∷ []) reply 60

abbrev records : List DnsRecord
records = nas ∷ web ∷ []

lookup_local_non_ptr-eq-find_all_records_example :
    lookup_local_non_ptr sample_rrs.new_rr records
      (build_dns_record_index records)
      (codes "web.lan")
      (codes "A")
    ≡ find_all_records sample_rrs.new_rr records (codes "web.lan") (codes "A") false
lookup_local_non_ptr-eq-find_all_records_example =
    lookup_local_non_ptr-eq-find_all_records sample_rrs.new_rr records (codes "web.lan") (codes "A")
      false (unfold text_eq in refl)
      (unfold normalize_record_name_key to_lower lower trim_space trim_left trim_right keep_head
          is_space canonicalize_record_name trim_dots is_dot in
        refl)
      (unfold normalize_record_name_key to_lower lower trim_space trim_left trim_right keep_head
          is_space canonicalize_record_name trim_dots is_dot in
        refl)

-- One entry that has expired and one that has not.
abbrev resolver_data : ResolverData
resolver_data = record {
  local_records_enabled = true;
  cache_enabled = true;
  stale_while_revalidate = true;
  dns_records = [];
  cache_records = record kept { expiry = 5 } ∷ kept ∷ [];
  dns_record_idx = [];
  cache_record_idx = [];
}

abbrev any_entry : CacheRecord → Bool
any_entry c = true

search_cache-Finds_example :
    Finds any_entry 50 true
      (answers (codes "example.com") (codes "A"))
      (any
        (λ c. answers (codes "example.com") (codes "A") c && (any_entry c && ltb 50 c.expiry))
        resolver_data.cache_records)
      (any
        (λ c. answers (codes "example.com") (codes "A") c && any_entry c)
        resolver_data.cache_records)
      (search_cache any_entry
        (warm_indexes resolver_data)
        (codes "example.com")
        (codes "A")
        50
        true)
search_cache-Finds_example =
    search_cache-Finds any_entry resolver_data (codes "example.com") (codes "A") 50 true
      (unfold normalize_record_name_key to_lower lower trim_space trim_left trim_right keep_head
          is_space canonicalize_record_name trim_dots is_dot in
        refl)
      (unfold entry_of normalize_record_name_key to_lower lower trim_space trim_left trim_right
          keep_head is_space canonicalize_record_name trim_dots is_dot in
        refl)

abbrev alias : DnsRecord
alias = record no_record {
  id = codes "id3";
  name = codes "www.lan";
  type = codes "cname";
  value = codes "Web.lan.";
}

alias_added : (add_record sample_library readings alias records false).error ≡ none
unfolding add_record check_fields cleaned canonicalize_record_name trim_dots trim_space
    normalize_record_type to_upper upper text_eq validate_record_value add_record_internal add_at
    find_dns_record_index matches_keys normalize_record_name_key normalize_record_value_key to_lower
    lower prepared insert_new append_record find_dns_record_index_by_id is_dot is_space keep_head
    trim_left trim_right
alias_added = refl

has-add_record_example :
    has same_key key
      (key (prepared readings (cleaned alias)))
      (add_record sample_library readings alias records false).records
    ≡ true
has-add_record_example = has-add_record sample_library readings alias records false alias_added
