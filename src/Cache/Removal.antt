-- ===== src/Cache/Removal.antt =====
-- dnsrecordcache/dnsrecordcache.go: what Remove takes out of the cache.
use dnsplane.Base.{
  ℕ, suc, ◌+◌, ◌≡◌, refl, Bool, true, false, List, [], ◌∷◌, none, some, arith, ◌⊎◌, inl, inr,
  Bool-cases, get_elem?, remove_at,
}
use dnsplane.Text.{Text, trim_space}
use dnsplane.Text.Equality.{text_eq_iff}
use native.Mathlib.Nat.{zero-add}
use dnsplane.Cliutil.{is_help_request}
use dnsplane.Records.Types.{Error, Outcome, invalid_args, help_requested}
use dnsplane.Records.Normalize.{normalize_record_name_key}
use dnsplane.Cache.{
  CacheRecord, is_wanted, matching_from, remove_index, remove_matching, remove_args, remove,
}

first_match :
    (p : CacheRecord → Bool) (cs : List CacheRecord) (s i : ℕ) (is : List ℕ)
    → matching_from p cs s ≡ i ∷ is
    → (j : ℕ) × (c : CacheRecord) × (i ≡ s + j) × (get_elem? cs j ≡ some c) × (p c ≡ true)
unfolding matching_from
first_match p [] s i is h = cc
first_match p (c ∷ cs) s i is h = elim (Bool-cases (p c)) [
  | inl e ↦ (0, c, ground arith, refl, e)
  | inr n ↦
      let (j, d, at, there, passes) = first_match p cs (suc s) i is (ground arith) in
      (suc j, d, omega arith, there, passes)
]

-- Nothing changes, with an error; or the entry at one index goes, and its name has the key.
abbrev pub TakesOne : Text → List CacheRecord → Outcome CacheRecord → Type 0
TakesOne key cs o =
    ((e : Error) × (o.error ≡ some e) × (o.records ≡ cs))
    ⊎ ((i : ℕ) × (c : CacheRecord) × (o.error ≡ none)
        × (get_elem? cs i ≡ some c)
        × (normalize_record_name_key c.dns_record.name ≡ key)
        × (o.records ≡ remove_at cs i))

is_wanted-name :
    (n t v : Text) (c : CacheRecord)
    → is_wanted n t v c ≡ true
    → normalize_record_name_key c.dns_record.name ≡ n
unfolding is_wanted
is_wanted-name n t v c h =
    ground (arith, text_eq_iff (normalize_record_name_key c.dns_record.name) n)

remove_index-TakesOne :
    (n t v : Text) (cs : List CacheRecord) (i : ℕ) (is : List ℕ)
    → matching_from (is_wanted n t v) cs 0 ≡ i ∷ is
    → TakesOne n cs (remove_index cs i (get_elem? cs i))
unfolding remove_index
remove_index-TakesOne n t v cs i is h =
    let (j, c, at, there, passes) = first_match (is_wanted n t v) cs 0 i is h in
    let here : get_elem? cs i ≡ some c = rw at (rw zero-add there) in
    rw (here, remove_index) (inr (i, c, refl, here, is_wanted-name n t v c passes, refl))

remove_matching-TakesOne :
    (n t v : Text) (cs : List CacheRecord) (has_value : Bool) (is : List ℕ)
    → matching_from (is_wanted n t v) cs 0 ≡ is
    → TakesOne n cs (remove_matching cs has_value is)
unfolding remove_matching
remove_matching-TakesOne n t v cs b [] h = inl (invalid_args, refl, refl)
remove_matching-TakesOne n t v cs b (i ∷ []) h = remove_index-TakesOne n t v cs i [] h
remove_matching-TakesOne n t v cs true (i ∷ j ∷ is) h = remove_index-TakesOne n t v cs i (j ∷ is) h
remove_matching-TakesOne n t v cs false (i ∷ j ∷ is) h = inl (invalid_args, refl, refl)

-- Remove of the cache, with at least one argument, either gives an error and leaves the entries as
-- they are, or gives none and takes out the entry at one index, whose normalized name is that of
-- the first argument.
remove-TakesOne :
    (name : Text) (rest : List Text) (cs : List CacheRecord)
    → TakesOne (normalize_record_name_key (trim_space name)) cs (remove (name ∷ rest) cs)
unfolding remove remove_args
remove-TakesOne name rest cs = elim (Bool-cases (is_help_request (name ∷ rest))) [
  | inl e ↦ rw (e, remove) (inl (help_requested, refl, refl))
  | inr n ↦ rw (n, remove) (remove_matching-TakesOne _ _ _ cs _ _ refl)
]
