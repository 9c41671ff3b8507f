-- ===== src/Cache/Stored.antt =====
-- dnsrecordcache/dnsrecordcache.go: what the cache holds after Add.
use dnsplane.Base.{
  ℕ, ◌+◌, ◌*◌, ◌≡◌, refl, ◌∙◌, Bool, true, false, ◌&&◌, not, max, filter, List, [], ◌∷◌, arith,
  Bool-cases, inl, inr,
}
use dnsplane.Base.Unique.{has, Distinct}
use dnsplane.Text.Equality.{text_eq_iff, text_eq_refl}
use dnsplane.Library.{RrLibrary}
use dnsplane.Text.{Text, text_eq}
use dnsplane.Records.Keys.{text_eq_flip}
use dnsplane.Cache.{
  CacheRecord, Clock, second, floor_ttl, same_entry, refresh, store_entry, value_of, entry_of, add,
}

-- The entry is under this name, type and value.
unfoldable pub is_under : Text → Text → Text → CacheRecord → Bool
is_under name type value c =
    text_eq c.dns_record.name name
    && text_eq c.dns_record.type type
    && text_eq c.dns_record.value value

abbrev pub after_first : List CacheRecord → List CacheRecord
after_first [] = []
after_first (c ∷ cs) = cs

-- The timestamp of the first entry, or that of a new one.
abbrev pub first_timestamp : ℕ → List CacheRecord → ℕ
first_timestamp now [] = now
first_timestamp now (c ∷ cs) = c.timestamp

-- The entry has the larger of the two TTLs, expires that many seconds after the clock's time, and
-- was last queried at the clock's time.
unfoldable pub IsRenewed : Clock → ℕ → ℕ → CacheRecord → Type 0
IsRenewed clock ttl min_ttl c =
    (c.dns_record.ttl ≡ max ttl min_ttl)
    × (c.expiry ≡ clock.at_expiry + max ttl min_ttl * second)
    × (c.last_query ≡ clock.at_query)

-- No two entries have the same name, type and value.
abbrev pub EntriesDistinct : List CacheRecord → Type 0
EntriesDistinct = Distinct (λ c d. same_entry c d) (λ c. c)

pub same_entry_refl : (c : CacheRecord) → same_entry c c ≡ true
unfolding same_entry
same_entry_refl c = ground (
  arith,
  text_eq_refl c.dns_record.name,
  text_eq_refl c.dns_record.type,
  text_eq_refl c.dns_record.value,
)

-- The test reads the name, type and value alone, so it is the same for entries that agree on them.
pub same_entry_cong :
    (c d k : CacheRecord) → same_entry c d ≡ true → same_entry c k ≡ same_entry d k
unfolding same_entry
same_entry_cong c d k h = ground (
  arith,
  text_eq_iff c.dns_record.name d.dns_record.name,
  text_eq_iff c.dns_record.type d.dns_record.type,
  text_eq_iff c.dns_record.value d.dns_record.value,
)

same_entry_flip : (c d : CacheRecord) → same_entry c d ≡ same_entry d c
unfolding same_entry
same_entry_flip c d =
    rw
      (
        text_eq_flip c.dns_record.name d.dns_record.name,
        text_eq_flip c.dns_record.type d.dns_record.type,
        text_eq_flip c.dns_record.value d.dns_record.value,
      )
      refl

same_entry-refresh :
    (now : ℕ) (new old k : CacheRecord) → same_entry (refresh now new old) k ≡ same_entry old k
unfolding same_entry refresh
same_entry-refresh now new old k = refl

module _ (now : ℕ) (new : CacheRecord) where
  abbrev same : CacheRecord → Bool
  same c = same_entry c new

  same_entry-touched : same_entry (record new { last_query = now }) new ≡ true
  same_entry-touched = unfold same_entry in same_entry_refl new

  filter-store_entry_others :
      (cs : List CacheRecord)
      → filter (λ c. not (same c)) (store_entry now new cs) ≡ filter (λ c. not (same c)) cs
  unfolding store_entry
  filter-store_entry_others [] = rw same_entry-touched refl
  filter-store_entry_others (c ∷ cs) =
      ground (arith, same_entry-refresh now new c new, filter-store_entry_others cs)

  -- What the entries of its own name, type and value have first after the write.
  abbrev first_of : List CacheRecord → CacheRecord
  first_of [] = record new { last_query = now }
  first_of (c ∷ cs) = refresh now new c

  filter-store_entry :
      (cs : List CacheRecord)
      → filter same (store_entry now new cs)
        ≡ first_of (filter same cs) ∷ after_first (filter same cs)
  unfolding store_entry
  filter-store_entry [] = rw same_entry-touched refl
  filter-store_entry (c ∷ cs) = elim (Bool-cases (same_entry c new)) [
    | inl e ↦ rw (e, same_entry-refresh now new c new, e) refl
    | inr n ↦ rw (n, n) (filter-store_entry cs)
  ]

abbrev holds : CacheRecord → List CacheRecord → Bool
holds k cs = has (λ c d. same_entry c d) (λ c. c) k cs

holds-store_entry :
    (now : ℕ) (new k : CacheRecord) (cs : List CacheRecord)
    → same_entry new k ≡ false
    → holds k cs ≡ false
    → holds k (store_entry now new cs) ≡ false
unfolding store_entry
holds-store_entry now new k [] h n = unfold same_entry in ground (arith, same_entry new k)
holds-store_entry now new k (c ∷ cs) h n =
    ground (arith, same_entry-refresh now new c k, holds-store_entry now new k cs)

holds_cong :
    (c d : CacheRecord) (cs : List CacheRecord)
    → ((k : CacheRecord) → same_entry k c ≡ same_entry k d)
    → holds c cs ≡ holds d cs
holds_cong c d [] h = refl
holds_cong c d (x ∷ cs) h = ground (arith, h x, holds_cong c d cs h)

store_entry-EntriesDistinct :
    (now : ℕ) (new : CacheRecord) (cs : List CacheRecord)
    → EntriesDistinct cs
    → EntriesDistinct (store_entry now new cs)
unfolding store_entry
store_entry-EntriesDistinct now new [] d = (refl, tt)
store_entry-EntriesDistinct now new (c ∷ cs) d = elim (Bool-cases (same_entry c new)) [
  | inl e ↦
      rw e (holds_cong (refresh now new c) c cs (λ k. unfold same_entry refresh in refl) ∙ d.0, d.1)
  | inr n ↦ rw n (
    holds-store_entry now new c cs (ground (arith, same_entry_flip c new)) d.0,
    store_entry-EntriesDistinct now new cs d.1,
  )
]

module _ (lib : RrLibrary) where
  open lib use {Rr, name, type, ttl, view}

  -- Add keeps the entries of the cache distinct: where no two entries had the same name, type and
  -- value, none have after it.
  add-EntriesDistinct :
      (clock : Clock) (cs : List CacheRecord) (rr : Rr) (min_ttl : ℕ)
      → EntriesDistinct cs
      → EntriesDistinct (add lib clock cs rr min_ttl)
  unfolding add
  add-EntriesDistinct clock cs rr min_ttl d =
      store_entry-EntriesDistinct clock.at_query (entry_of lib clock rr min_ttl) cs d

  first_of-IsRenewed :
      (clock : Clock) (rr : Rr) (min_ttl : ℕ) (old : List CacheRecord)
      → let c = first_of clock.at_query (entry_of lib clock rr min_ttl) old in
        IsRenewed clock (ttl rr) min_ttl c × (c.timestamp ≡ first_timestamp clock.at_timestamp old)
  unfolding IsRenewed entry_of floor_ttl refresh
  first_of-IsRenewed clock rr min_ttl [] = ground arith
  first_of-IsRenewed clock rr min_ttl (c ∷ old) = ground arith

  -- After Add, the first entry under the name, type and value of the added record has the larger
  -- of the record's TTL and the least TTL, expires that many seconds after the time of the call
  -- and was last queried at it. Its timestamp is that of the first such entry before, if there was
  -- one, else the time of the call. The other entries under that name, type and value, and those
  -- under any other, are as before and in their order.
  pub add-IsRenewed :
      (clock : Clock) (cs : List CacheRecord) (rr : Rr) (min_ttl : ℕ)
      → let p = is_under (name rr) (type rr) (value_of lib rr (view rr)) in
        let after = add lib clock cs rr min_ttl in
        (filter (λ c. not (p c)) after ≡ filter (λ c. not (p c)) cs)
        × (c : CacheRecord) × (filter p after ≡ c ∷ after_first (filter p cs))
        × IsRenewed clock (ttl rr) min_ttl c
        × (c.timestamp ≡ first_timestamp clock.at_timestamp (filter p cs))
  unfolding is_under add same_entry entry_of
  add-IsRenewed clock cs rr min_ttl =
      let new = entry_of lib clock rr min_ttl in
      let old = filter (same clock.at_query new) cs in
      let (renewed, stamp) = first_of-IsRenewed clock rr min_ttl old in
      (
        filter-store_entry_others clock.at_query new cs,
        first_of clock.at_query new old,
        filter-store_entry clock.at_query new cs,
        renewed,
        stamp,
      )
