-- ===== src/LookupIndex/Index.antt =====
-- The lookup maps of data/lookup_index.go: a Go map[string][]int is an association list in which a
-- missing key has no indices.
use dnsplane.Base.{ℕ, suc, List, [], ◌∷◌, ◌++◌, Option, is_empty, get_elem?, if◌then◌else◌}
use dnsplane.Text.{Text, text_eq}
use dnsplane.Records.Types.{DnsRecord}
use dnsplane.Records.Normalize.{normalize_record_name_key, normalize_record_type}
use dnsplane.Records.Lookup.{to_list, record_rr}
use dnsplane.Cache.{CacheRecord}

abbrev pub IndexMap : Type 0
IndexMap = List (Text × List ℕ)

-- idx[k]
unfoldable pub index_get : Text → IndexMap → List ℕ
index_get k [] = []
index_get k ((j, is) ∷ m) = if text_eq j k then is else index_get k m

-- idx[k] = append(idx[k], i)
unfoldable pub index_append : Text → ℕ → IndexMap → IndexMap
index_append k i [] = (k, i ∷ []) ∷ []
index_append k i ((j, is) ∷ m) =
    if text_eq j k then (j, is ++ i ∷ []) ∷ m else (j, is) ∷ index_append k i m

unfoldable pub dns_cache_idx_key : Text → Text → Text
dns_cache_idx_key name record_type =
    normalize_record_name_key name ++ 0 ∷ normalize_record_type record_type

-- The loop of the two builders, from the index `i` on.
unfoldable pub build_from : {A : Type 0} → (A → Text) → ℕ → List A → IndexMap → IndexMap
build_from key i [] m = m
build_from key i (r ∷ rs) m = build_from key (suc i) rs (index_append (key r) i m)

abbrev pub record_idx_key : DnsRecord → Text
record_idx_key r = dns_cache_idx_key r.name r.type

abbrev pub cache_idx_key : CacheRecord → Text
cache_idx_key c = record_idx_key c.dns_record

unfoldable pub build_dns_record_index : List DnsRecord → IndexMap
build_dns_record_index rs = build_from record_idx_key 0 rs []

unfoldable pub build_cache_record_index : List CacheRecord → IndexMap
build_cache_record_index cs = build_from cache_idx_key 0 cs []

-- The elements at the indices; an index out of range is passed over.
unfoldable pub fetch : {A : Type 0} → List A → List ℕ → List A
fetch xs [] = []
fetch xs (i ∷ is) = to_list (get_elem? xs i) ++ fetch xs is

module _ {Rr : Type 0} (new_rr : Text → Option Rr) where
  -- The records that parse, in order.
  unfoldable pub parse_all : List DnsRecord → List Rr
  parse_all [] = []
  parse_all (r ∷ rs) = to_list (record_rr new_rr r) ++ parse_all rs

  unfoldable pub lookup_local_non_ptr : List DnsRecord → IndexMap → Text → Text → List Rr
  lookup_local_non_ptr rs idx qname record_type =
      if is_empty rs
      then []
      else parse_all (fetch rs (index_get (dns_cache_idx_key qname record_type) idx))
