-- ===== src/LookupIndex/Fresh.antt =====
-- What the lookups of data/lookup_index.go find in the cache.
use dnsplane.Base.{
  ℕ, ◌≤◌, ◌<◌, ◌≡◌, refl, Bool, true, false, ◌&&◌, List, [], ◌∷◌, none, some, arith, all, any, ltb,
  filter, inl, inr, Bool-cases,
}
use dnsplane.Text.{Text, text_eq}
use dnsplane.Text.Split.{Avoids}
use dnsplane.Records.Normalize.{normalize_record_name_key, normalize_record_type}
use dnsplane.Cache.{CacheRecord}
use dnsplane.LookupIndex.Index.{dns_cache_idx_key, cache_idx_key, build_cache_record_index}
use dnsplane.LookupIndex.Answer.{
  ResolverData, warm_indexes, Search, hit, miss, keep_stale, search_in, search_twice, has_keys,
  search_cache,
}
use dnsplane.LookupIndex.Coherent.{fetch-build_from, text_eq-joined, has_plain_name}

module _ (usable : CacheRecord → Bool) (now : ℕ) (stale : Bool) where
  -- The entry may be used and has not expired.
  abbrev pub is_fresh : CacheRecord → Bool
  is_fresh c = usable c && ltb now c.expiry

  -- An entry that may be given: it passes the tests, and it has not expired.
  abbrev pub Good : (CacheRecord → Bool) → CacheRecord → Type 0
  Good wanted c = (wanted c ≡ true) × (usable c ≡ true) × (now < c.expiry)

  -- An expired entry that may be given, where such are asked for.
  abbrev pub Stale : (CacheRecord → Bool) → CacheRecord → Type 0
  Stale wanted c = (wanted c ≡ true) × (usable c ≡ true) × (c.expiry ≤ now) × (stale ≡ true)

  -- What a search may return where `fresh` says whether some entry has not expired and `old`
  -- whether there is one at all.
  abbrev pub Finds : (CacheRecord → Bool) → Bool → Bool → Search → Type 0
  Finds wanted fresh old (hit c) = Good wanted c
  Finds wanted fresh old (miss (some c)) = (fresh ≡ false) × Stale wanted c
  Finds wanted fresh old (miss none) = (fresh ≡ false) × ((stale && old) ≡ false)

  -- The same, where the expired entry `b` was kept before.
  abbrev FindsOr : (CacheRecord → Bool) → CacheRecord → Bool → Search → Type 0
  FindsOr wanted b fresh (hit c) = Good wanted c
  FindsOr wanted b fresh (miss best) = (fresh ≡ false) × (best ≡ some b)

  search_in-FindsOr :
      (wanted : CacheRecord → Bool) (cs : List CacheRecord) (b : CacheRecord)
      → all wanted cs ≡ true
      → FindsOr wanted b (any is_fresh cs) (search_in usable now stale cs (some b))
  unfolding search_in keep_stale
  search_in-FindsOr wanted [] b w = (refl, refl)
  search_in-FindsOr wanted (c ∷ cs) b w =
      let rest = search_in-FindsOr wanted cs b (ground arith) in
      elim (Bool-cases (usable c)) [
        | inr n ↦ rw (n, search_in) rest
        | inl u ↦ elim (Bool-cases (ltb now c.expiry)) [
          | inl f ↦ rw (u, f, search_in) (ground arith, u, ground arith)
          | inr e ↦ rw (u, e, search_in) rest
        ]
      ]

  from_or :
      (wanted : CacheRecord → Bool) (b : CacheRecord) (fresh old : Bool) (s : Search)
      → Stale wanted b
      → FindsOr wanted b fresh s
      → Finds wanted fresh old s
  from_or wanted b fresh old (hit c) k h = h
  from_or wanted b fresh old (miss none) k h = absurd (ground arith)
  from_or wanted b fresh old (miss (some c)) k h = ground arith

  no_stale :
      (wanted : CacheRecord → Bool) (fresh old old' : Bool) (s : Search)
      → stale ≡ false
      → Finds wanted fresh old s
      → Finds wanted fresh old' s
  no_stale wanted fresh old old' (hit c) f h = h
  no_stale wanted fresh old old' (miss none) f h = ground arith
  no_stale wanted fresh old old' (miss (some c)) f h = h

  pub search_in-Finds :
      (wanted : CacheRecord → Bool) (cs : List CacheRecord)
      → all wanted cs ≡ true
      → Finds wanted (any is_fresh cs) (any usable cs) (search_in usable now stale cs none)
  unfolding search_in keep_stale
  search_in-Finds wanted [] w = (refl, ground arith)
  search_in-Finds wanted (c ∷ cs) w =
      let later : all wanted cs ≡ true = ground arith in
      let rest = search_in-Finds wanted cs later in
      let kept = search_in-FindsOr wanted cs c later in
      elim (Bool-cases (usable c)) [
        | inr n ↦ rw (n, search_in) rest
        | inl u ↦ elim (Bool-cases (ltb now c.expiry)) [
          | inl f ↦ rw (u, f, search_in) (ground arith, u, ground arith)
          | inr e ↦ elim (Bool-cases stale) [
            | inl st ↦
                let k : keep_stale stale c none ≡ some c = ground arith in
                rw (u, e, search_in, k)
                  (from_or wanted c (any is_fresh cs) true _ (ground arith, u, ground arith, st)
                    kept)
            | inr f ↦
                let k : keep_stale stale c none ≡ none = ground arith in
                rw (u, e, search_in, k) (no_stale wanted _ _ true _ f rest)
          ]
        ]
      ]

  after_first :
      (wanted : CacheRecord → Bool) (cs : List CacheRecord) (s : Search)
      → all wanted cs ≡ true
      → Finds wanted (any is_fresh cs) (any usable cs) s
      → Finds wanted
          (any is_fresh cs)
          (any usable cs)
          (elim s [ hit c ↦ hit c | miss best ↦ search_in usable now stale cs best ])
  after_first wanted cs (hit c) w h = h
  after_first wanted cs (miss none) w h = search_in-Finds wanted cs w
  after_first wanted cs (miss (some b)) w h =
      from_or wanted b (any is_fresh cs) (any usable cs) _ h.1 (search_in-FindsOr wanted cs b w)

  -- Both loops over the same entries.
  pub search_twice-Finds :
      (wanted : CacheRecord → Bool) (cs : List CacheRecord)
      → all wanted cs ≡ true
      → Finds wanted (any is_fresh cs) (any usable cs) (search_twice usable now stale cs cs)
  unfolding search_twice
  search_twice-Finds wanted cs w = after_first wanted cs _ w (search_in-Finds wanted cs w)

all-filter : (p : CacheRecord → Bool) (cs : List CacheRecord) → all p (filter p cs) ≡ true
all-filter p [] = refl
all-filter p (c ∷ cs) = ground (arith, all-filter p cs)

any-filter :
    (p q : CacheRecord → Bool) (cs : List CacheRecord)
    → any p (filter q cs) ≡ any (λ c. q c && p c) cs
any-filter p q [] = refl
any-filter p q (c ∷ cs) = ground (arith, any-filter p q cs)

-- The entries under the key of the map are those with the two keys.
pub filter-has_keys :
    (qname record_type : Text) (cs : List CacheRecord)
    → Avoids 0 (normalize_record_name_key qname)
    → all (λ c. has_plain_name c.dns_record) cs ≡ true
    → filter (λ c. text_eq (cache_idx_key c) (dns_cache_idx_key qname record_type)) cs
      ≡ filter (has_keys (normalize_record_name_key qname) (normalize_record_type record_type)) cs
unfolding dns_cache_idx_key has_keys
filter-has_keys qname record_type [] q h = refl
filter-has_keys qname record_type (c ∷ cs) q h =
    let r = c.dns_record in
    rw (
      text_eq-joined (normalize_record_name_key r.name) (normalize_record_type r.type)
          (normalize_record_name_key qname) (normalize_record_type record_type) (ground arith) q,
      filter-has_keys qname record_type cs q (ground arith),
    )

-- What the entry's name and type say of the question.
abbrev pub answers : Text → Text → CacheRecord → Bool
answers qname record_type =
    has_keys (normalize_record_name_key qname) (normalize_record_type record_type)

-- With the map that the builder makes, the lookup in the cache gives a usable entry for the name
-- and type of the question that has not expired, if there is one; else a usable expired one for
-- the question, if stale entries are asked for and there is one; else none. No normalized name, of
-- the question or of an entry, has a zero byte.
pub search_cache-Finds :
    (usable : CacheRecord → Bool) (d : ResolverData) (qname record_type : Text) (now : ℕ)
    (stale : Bool)
    → Avoids 0 (normalize_record_name_key qname)
    → all (λ c. has_plain_name c.dns_record) d.cache_records ≡ true
    → Finds usable now stale
        (answers qname record_type)
        (any (λ c. answers qname record_type c && (usable c && ltb now c.expiry)) d.cache_records)
        (any (λ c. answers qname record_type c && usable c) d.cache_records)
        (search_cache usable (warm_indexes d) qname record_type now stale)
unfolding search_cache warm_indexes build_cache_record_index
search_cache-Finds usable d qname record_type now stale q h =
    let cs = d.cache_records in
    let wanted = answers qname record_type in
    rw
      (
        fetch-build_from cache_idx_key (dns_cache_idx_key qname record_type) cs,
        filter-has_keys qname record_type cs q h,
        ← any-filter (λ c. usable c && ltb now c.expiry) wanted cs,
        ← any-filter usable wanted cs,
      )
      (search_twice-Finds usable now stale wanted (filter wanted cs) (all-filter wanted cs))
