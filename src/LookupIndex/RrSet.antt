-- ===== src/LookupIndex/RrSet.antt =====
-- The cached RRsets of data/lookup_index.go: several resource records in the value of one entry.
use dnsplane.Base.{
  ℕ, Bool, List, [], ◌∷◌, ◌++◌, Option, none, some, is_empty, ltb, ◌==◌, map, if◌then◌else◌, drop,
  length,
}
use dnsplane.Text.{Text, codes, has_prefix, trim_space, split}
use dnsplane.Library.{RrLibrary}

-- RRSetCachePrefix
abbrev pub rr_set_cache_prefix : Text
rr_set_cache_prefix = codes "__RRSET_v1__" ++ 10 ∷ []

-- The TTL that clipRRSetTTLs gives to a record with the TTL `t`.
unfoldable pub clipped_ttl : ℕ → Bool → ℕ → ℕ
clipped_ttl remaining stale t =
    let cut = if stale then 1 else if ltb remaining t then remaining else t in
    if cut == 0 then 1 else cut

module _ (lib : RrLibrary) where
  open lib use {Rr, ttl, to_string, with_ttl, new_rr}

  unfoldable pub lines_of : List Rr → Text
  lines_of [] = []
  lines_of (rr ∷ rrs) = to_string rr ++ 10 ∷ lines_of rrs

  unfoldable pub build_rrset_cache_value : List Rr → Text
  build_rrset_cache_value rrs = rr_set_cache_prefix ++ lines_of rrs

  -- The loop over the lines: `none` where a line does not parse.
  unfoldable pub parse_lines : List Text → Option (List Rr)
  parse_lines [] = some []
  parse_lines (line ∷ lines) =
      let t = trim_space line in
      let rest = parse_lines lines in
      if is_empty t then rest else elim (new_rr t) [
        | none ↦ none
        | some rr ↦ elim rest [ none ↦ none | some rrs ↦ some (rr ∷ rrs) ]
      ]

  -- `len(out) > 0`
  unfoldable pub some_lines : Option (List Rr) → Option (List Rr)
  some_lines none = none
  some_lines (some []) = none
  some_lines (some (rr ∷ rrs)) = some (rr ∷ rrs)

  -- What stands behind the prefix, trimmed.
  unfoldable pub parse_rest : Text → Option (List Rr)
  unfolding some_lines
  parse_rest rest = if is_empty rest then none else some_lines (parse_lines (split 10 rest))

  -- `none` where the second result is false
  unfoldable pub parse_rrset_cache_value : Text → Option (List Rr)
  unfolding parse_rest
  parse_rrset_cache_value v =
      if has_prefix v rr_set_cache_prefix
      then parse_rest (trim_space (drop (length rr_set_cache_prefix) v))
      else none

  unfoldable pub clip_rrset_ttls : List Rr → ℕ → Bool → List Rr
  clip_rrset_ttls rrs remaining stale =
      map (λ rr. with_ttl rr (clipped_ttl remaining stale (ttl rr))) rrs
