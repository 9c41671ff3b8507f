-- ===== src/Records/Keys.antt =====
-- The keys of a record in dnsrecords/dnsrecords.go: what the searches compare.
use dnsplane.Base.{◌≡◌, refl, Bool, true, ◌&&◌, List, arith}
use dnsplane.Base.Unique.{Distinct, find}
use dnsplane.Text.{Text, text_eq}
use dnsplane.Text.Equality.{text_eq_iff, text_eq_refl}
use dnsplane.Records.Types.{DnsRecord}
use dnsplane.Records.Normalize.{
  normalize_record_name_key, normalize_record_type, normalize_record_value_key, value_key-type_key,
}
use dnsplane.Records.Find.{matches_keys, find_dns_record_index}

-- The name, type and value keys of a record.
pub record Key : Type 0 where
  pub name : Text
  pub type : Text
  pub value : Text

abbrev pub same_key : Key → Key → Bool
same_key a b = text_eq a.name b.name && text_eq a.type b.type && text_eq a.value b.value

abbrev pub key : DnsRecord → Key
key r = record {
  name = normalize_record_name_key r.name;
  type = normalize_record_type r.type;
  value = normalize_record_value_key r.type r.value;
}

-- No two records have the same three keys.
abbrev pub KeysDistinct : List DnsRecord → Type 0
KeysDistinct = Distinct same_key key

pub text_eq_flip : (a b : Text) → text_eq a b ≡ text_eq b a
text_eq_flip a b = ground (arith, text_eq_iff a b, text_eq_iff b a)

pub same_key_flip : (a b : Key) → same_key a b ≡ same_key b a
same_key_flip a b =
    rw (text_eq_flip a.name b.name, text_eq_flip a.type b.type, text_eq_flip a.value b.value) refl

pub same_key→eq : (a b : Key) → same_key a b ≡ true → a ≡ b
same_key→eq a b h =
    ground
      (arith, text_eq_iff a.name b.name, text_eq_iff a.type b.type, text_eq_iff a.value b.value)

pub same_key_refl : (a : Key) → same_key a a ≡ true
same_key_refl a = ground (arith, text_eq_refl a.name, text_eq_refl a.type, text_eq_refl a.value)

-- The search of findDNSRecordIndex is a search for a record's three keys.
pub find_dns_record_index_lem :
    (rs : List DnsRecord) (r : DnsRecord)
    → find_dns_record_index rs r.name r.type r.value ≡ find same_key key (key r) rs
unfolding find_dns_record_index matches_keys
find_dns_record_index_lem rs r = rw (value_key-type_key r.type r.value)
