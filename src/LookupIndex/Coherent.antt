-- ===== src/LookupIndex/Coherent.antt =====
-- data/lookup_index.go and dnsrecords/dnsrecords.go: the lookup by a map and the scan.
use dnsplane.Base.{
  ℕ, suc, ◌+◌, ◌≡◌, refl, sym, ap, ◌∙◌, Bool, true, false, ◌&&◌, not, List, [], ◌∷◌, ◌++◌, Option,
  arith, all, ◌==◌, get_elem?, filter, inl, inr, Bool-cases, if◌then◌else◌,
}
use native.Mathlib.Nat.{zero-add, add-zero, add-suc, suc-add}
use mathlib.Core.List.{append_assoc, append-nil}
use dnsplane.Text.{Text, codes, text_eq}
use dnsplane.Text.Equality.{text_eq_iff}
use dnsplane.Text.Split.{Avoids}
use dnsplane.Records.Types.{DnsRecord}
use dnsplane.Records.Normalize.{normalize_record_name_key, normalize_record_type}
use dnsplane.Records.Lookup.{plain_answers, gather, find_all_records}
use dnsplane.LookupIndex.Index.{
  IndexMap, index_get, index_append, dns_cache_idx_key, build_from, record_idx_key, fetch,
  parse_all, build_dns_record_index, lookup_local_non_ptr,
}

index_get-index_append :
    (j k : Text) (i : ℕ) (m : IndexMap)
    → index_get k (index_append j i m)
      ≡ (if text_eq j k then index_get k m ++ i ∷ [] else index_get k m)
unfolding index_get index_append
index_get-index_append j k i [] = refl
index_get-index_append j k i ((l, is) ∷ m) =
    ground
      (arith, text_eq_iff j k, text_eq_iff l j, text_eq_iff l k, index_get-index_append j k i m)

module _ {A : Type 0} (key : A → Text) where
  -- The places of the elements with the key, counted from `i`.
  unfoldable pub positions : Text → ℕ → List A → List ℕ
  positions k i [] = []
  positions k i (x ∷ xs) =
      let rest = positions k (suc i) xs in if text_eq (key x) k then i ∷ rest else rest

  index_get-build_from :
      (k : Text) (i : ℕ) (xs : List A) (m : IndexMap)
      → index_get k (build_from key i xs m) ≡ index_get k m ++ positions k i xs
  unfolding build_from positions
  index_get-build_from k i [] m = rw append-nil
  index_get-build_from k i (x ∷ xs) m =
      index_get-build_from k (suc i) xs (index_append (key x) i m)
      ∙ elim (Bool-cases (text_eq (key x) k)) [
        | inl e ↦
            rw (index_get-index_append (key x) k i m, e)
              (append_assoc (index_get k m) (i ∷ []) (positions k (suc i) xs))
        | inr n ↦ rw (index_get-index_append (key x) k i m, n)
      ]

  -- Behind the first `i` elements of `all`.
  fetch-positions :
      (k : Text) (i : ℕ) (all xs : List A)
      → ((j : ℕ) → get_elem? all (i + j) ≡ get_elem? xs j)
      → fetch all (positions k i xs) ≡ filter (λ x. text_eq (key x) k) xs
  unfolding fetch positions
  fetch-positions k i all [] h = refl
  fetch-positions k i all (x ∷ xs) h =
      let rest =
        fetch-positions k (suc i) all xs (λ j. (rw (suc-add, ← add-suc) refl) ∙ h (suc j)) in
      elim (Bool-cases (text_eq (key x) k)) [
        | inl e ↦ rw e (rw (sym (ap (get_elem? all) (add-zero i)) ∙ h 0) (rw rest))
        | inr n ↦ rw n rest
      ]

  -- What the built map gives for a key is what a scan for the key gives.
  pub fetch-build_from :
      (k : Text) (xs : List A)
      → fetch xs (index_get k (build_from key 0 xs [])) ≡ filter (λ x. text_eq (key x) k) xs
  fetch-build_from k xs =
      rw (index_get-build_from k 0 xs [])
        (unfold index_get in fetch-positions k 0 xs xs (λ j. ap (get_elem? xs) (zero-add j)))

-- Two keys are equal exactly when their parts are, where no name has a zero byte.
pub text_eq-joined :
    (a b c d : Text)
    → Avoids 0 a
    → Avoids 0 c
    → text_eq (a ++ 0 ∷ b) (c ++ 0 ∷ d) ≡ (text_eq a c && text_eq b d)
unfolding text_eq
text_eq-joined [] b [] d h k = refl
text_eq-joined [] b (y ∷ c) d h k = ground arith
text_eq-joined (x ∷ a) b [] d h k = ground arith
text_eq-joined (x ∷ a) b (y ∷ c) d h k = ground (arith, text_eq-joined a b c d)

-- The record's name has no zero byte.
abbrev pub has_plain_name : DnsRecord → Bool
has_plain_name r = all (λ c. not (c == 0)) (normalize_record_name_key r.name)

module _ {Rr : Type 0} (new_rr : Text → Option Rr) where
  parse_all-filter :
      (qname record_type : Text) (rs : List DnsRecord)
      → Avoids 0 (normalize_record_name_key qname)
      → all has_plain_name rs ≡ true
      → parse_all new_rr
          (filter (λ r. text_eq (record_idx_key r) (dns_cache_idx_key qname record_type)) rs)
        ≡ gather new_rr
            (plain_answers new_rr
              (normalize_record_name_key qname)
              (normalize_record_type record_type))
            rs
  unfolding parse_all gather plain_answers dns_cache_idx_key
  parse_all-filter qname record_type [] q h = refl
  parse_all-filter qname record_type (r ∷ rs) q h =
      let rest = parse_all-filter qname record_type rs q (ground arith) in
      let same =
        text_eq-joined (normalize_record_name_key r.name) (normalize_record_type r.type)
          (normalize_record_name_key qname) (normalize_record_type record_type) (ground arith) q in
      let here =
        text_eq (normalize_record_name_key r.name) (normalize_record_name_key qname)
        && text_eq (normalize_record_type r.type) (normalize_record_type record_type) in
      elim (Bool-cases here) [ inl e ↦ rw (same, e) (rw rest) | inr n ↦ rw (same, n) rest ]

  -- With the map that buildDNSRecordIndex makes, the indexed lookup of local records gives the
  -- same resource records, in the same order, as the scan of FindAllRecords, for a type that is
  -- not "PTR" and where no normalized name, of the question or of a record, has a zero byte.
  pub lookup_local_non_ptr-eq-find_all_records :
      (rs : List DnsRecord) (qname record_type : Text) (auto_build : Bool)
      → text_eq record_type (codes "PTR") ≡ false
      → Avoids 0 (normalize_record_name_key qname)
      → all has_plain_name rs ≡ true
      → lookup_local_non_ptr new_rr rs (build_dns_record_index rs) qname record_type
        ≡ find_all_records new_rr rs qname record_type auto_build
  unfolding lookup_local_non_ptr find_all_records build_dns_record_index gather
  lookup_local_non_ptr-eq-find_all_records [] qname record_type auto_build p q h = rw p
  lookup_local_non_ptr-eq-find_all_records (r ∷ rs) qname record_type auto_build p q h =
      rw (p, fetch-build_from record_idx_key (dns_cache_idx_key qname record_type) (r ∷ rs))
        (parse_all-filter qname record_type (r ∷ rs) q h)
