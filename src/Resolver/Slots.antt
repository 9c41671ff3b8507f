-- ===== src/Resolver/Slots.antt =====
-- resolver/resolver.go: the entries that hold a whole answer.
use dnsplane.Base.{
  ◌+◌, ◌*◌, ◌≤◌, ◌≡◌, ap, ◌∙◌, Bool, true, false, ◌&&◌, List, [], ◌∷◌, Option, none, some, arith,
  is_empty, if◌then◌else◌,
}
use dnsplane.Text.{Text, text_eq}
use dnsplane.Text.Equality.{text_eq_iff, text_eq_refl}
use dnsplane.Text.Prefix.{has_prefix-append}
use dnsplane.Library.{RrLibrary}
use dnsplane.Records.Normalize.{normalize_record_name_key}
use dnsplane.Cache.{CacheRecord, Clock, second, floor_ttl}
use dnsplane.LookupIndex.RrSet.{build_rrset_cache_value, rr_set_cache_prefix, lines_of}
use dnsplane.LookupIndex.Answer.{is_rrset}
use dnsplane.Resolver.Caching.{
  Settings, Question, is_slot, overwrite_slot, put_rrset, rrset_entry, rrset_ttl, min_ttl_of,
  cache_synthetic_rrset_answer,
}

-- The first entry that may hold the RRset of the name and type.
unfoldable pub slot : Text → Text → List CacheRecord → Option CacheRecord
slot name type [] = none
slot name type (c ∷ cs) = if is_slot name type c then some c else slot name type cs

-- The entry that a write leaves.
unfoldable pub after_write : CacheRecord → Option CacheRecord → CacheRecord
after_write new none = new
after_write new (some old) = overwrite_slot new old

-- The name and the type are those of the entry.
abbrev pub names_slot : Text → Text → CacheRecord → Bool
names_slot name type c =
    text_eq (normalize_record_name_key c.dns_record.name) (normalize_record_name_key name)
    && text_eq c.dns_record.type type

slot-put_rrset :
    (new : CacheRecord) (name type : Text) (cs : List CacheRecord)
    → is_rrset new ≡ true
    → slot name type (put_rrset new cs) ≡ (
        if names_slot name type new
        then some (after_write new (slot new.dns_record.name new.dns_record.type cs))
        else slot name type cs)
unfolding slot put_rrset is_slot overwrite_slot after_write
slot-put_rrset new name type [] h = ground arith
slot-put_rrset new name type (c ∷ cs) h = ground (
  arith,
  text_eq_iff (normalize_record_name_key c.dns_record.name)
      (normalize_record_name_key new.dns_record.name),
  text_eq_iff (normalize_record_name_key c.dns_record.name) (normalize_record_name_key name),
  text_eq_iff (normalize_record_name_key new.dns_record.name) (normalize_record_name_key name),
  text_eq_iff c.dns_record.type new.dns_record.type,
  text_eq_iff c.dns_record.type type,
  text_eq_iff new.dns_record.type type,
  slot-put_rrset new name type cs,
)

module _ (lib : RrLibrary) where
  open lib use {Rr}

  rrset_entry-is_rrset :
      (settings : Settings) (clock : Clock) (q : Question) (answer : List Rr)
      → is_rrset (rrset_entry lib settings clock q answer) ≡ true
  unfolding rrset_entry build_rrset_cache_value
  rrset_entry-is_rrset settings clock q answer =
      has_prefix-append rr_set_cache_prefix (lines_of lib answer)

  -- With caching on, after an answer that is not empty has been cached whole, the first entry for
  -- whole answers under its normalized name and its type is the old one overwritten if there was
  -- one, and the new entry if not; what stands first under any other name and type is as before.
  slot-cache_synthetic_rrset_answer :
      (settings : Settings) (clock : Clock) (q : Question) (answer : List Rr)
      (cs : List CacheRecord) (name type : Text)
      → is_empty answer ≡ false
      → settings.cache_records ≡ true
      → slot name type (cache_synthetic_rrset_answer lib settings clock q answer cs) ≡ (
          if names_slot name type (rrset_entry lib settings clock q answer)
          then some (after_write (rrset_entry lib settings clock q answer) (slot q.name q.type cs))
          else slot name type cs)
  unfolding cache_synthetic_rrset_answer rrset_entry
  slot-cache_synthetic_rrset_answer settings clock q answer cs name type h k =
      rw (h, k)
        (slot-put_rrset (rrset_entry lib settings clock q answer) name type cs
          (rrset_entry-is_rrset settings clock q answer))

  after_write-lives :
      (settings : Settings) (clock : Clock) (q : Question) (answer : List Rr)
      (old : Option CacheRecord)
      → let c = after_write (rrset_entry lib settings clock q answer) old in
        (c.dns_record.value ≡ build_rrset_cache_value lib answer)
        × (min_ttl_of settings.min_cache_ttl_seconds ≤ c.dns_record.ttl)
        × (c.expiry ≡ clock.at_expiry + c.dns_record.ttl * second)
        × (c.last_query ≡ clock.at_query)
  unfolding after_write rrset_entry rrset_ttl floor_ttl overwrite_slot
  after_write-lives settings clock q answer none = ground arith
  after_write-lives settings clock q answer (some old) = ground arith

  own_slot :
      (settings : Settings) (clock : Clock) (q : Question) (answer : List Rr)
      → names_slot q.name q.type (rrset_entry lib settings clock q answer) ≡ true
  unfolding rrset_entry
  own_slot settings clock q answer =
      ground (arith, text_eq_refl (normalize_record_name_key q.name), text_eq_refl q.type)

  -- With caching on, after an answer that is not empty has been cached whole, the entry for the
  -- name and type of its question holds the text of the answer. Its TTL is at least the least TTL
  -- of the settings, it expires that many seconds after the time of the call, and its last query
  -- is at the time of the call.
  cached_answer-lives :
      (settings : Settings) (clock : Clock) (q : Question) (answer : List Rr)
      (cs : List CacheRecord)
      → is_empty answer ≡ false
      → settings.cache_records ≡ true
      → (c : CacheRecord) × (slot q.name q.type
            (cache_synthetic_rrset_answer lib settings clock q answer cs)
          ≡ some c)
        × (c.dns_record.value ≡ build_rrset_cache_value lib answer)
        × (min_ttl_of settings.min_cache_ttl_seconds ≤ c.dns_record.ttl)
        × (c.expiry ≡ clock.at_expiry + c.dns_record.ttl * second)
        × (c.last_query ≡ clock.at_query)
  cached_answer-lives settings clock q answer cs h k =
      let old = slot q.name q.type cs in
      let new = rrset_entry lib settings clock q answer in
      let (value, low, expiry, asked) = after_write-lives settings clock q answer old in
      let found =
        slot-cache_synthetic_rrset_answer settings clock q answer cs q.name q.type h k
        ∙ ap (λ (b : Bool). if b then some (after_write new old) else old)
            (own_slot settings clock q answer) in
      (after_write new old, found, value, low, expiry, asked)
