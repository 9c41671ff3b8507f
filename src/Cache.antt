-- ===== src/Cache.antt =====
-- dnsrecordcache/dnsrecordcache.go: the cache entries, Add and Remove.
pub mod Stored
pub mod Removal
use dnsplane.Base.{
  ℕ, zero, suc, ◌+◌, ◌*◌, ◌<◌, Bool, true, false, ◌&&◌, ◌||◌, not, List, [], ◌∷◌, ◌++◌, Option,
  none, some, is_empty, length, get_elem?, set, remove_at, index_of, map, ltb, if◌then◌else◌,
}
use dnsplane.Text.{Text, codes, text_eq, trim_space, join, decimal}
use dnsplane.Library.{RrLibrary, RrView, a, aaaa, cname, ns, mx, soa, txt, other}
use dnsplane.Cliutil.{is_help_request}
use dnsplane.Records.Types.{
  DnsRecord, no_record, info, warn, Message, message, says, of_record, help_requested, invalid_args,
  Outcome, done, refused,
}
use dnsplane.Records.Normalize.{
  normalize_record_name_key, normalize_record_type, normalize_record_value_key,
}

pub record CacheRecord : Type 0 where
  pub dns_record : DnsRecord
  pub expiry : ℕ
  pub timestamp : ℕ
  pub last_query : ℕ

-- time.Second in nanoseconds
abbrev pub second : ℕ
second = 1_000_000_000

-- The words between single spaces, as fmt prints them with "%s %s".
abbrev words : List Text → Text
words = join b' '

-- What time.Now returns, in the order of the calls of Add.
pub record Clock : Type 0 where
  pub at_expiry : ℕ
  pub at_timestamp : ℕ
  pub at_query : ℕ

-- The TTL that the entry gets: at least minTTL.
unfoldable pub floor_ttl : ℕ → ℕ → ℕ
floor_ttl ttl min_ttl = if ltb 0 min_ttl && ltb ttl min_ttl then min_ttl else ttl

-- The entry has exactly the name, type and value.
unfoldable pub same_entry : CacheRecord → CacheRecord → Bool
same_entry c d =
    text_eq c.dns_record.name d.dns_record.name
    && text_eq c.dns_record.type d.dns_record.type
    && text_eq c.dns_record.value d.dns_record.value

-- The new TTL, expiry and last query on an old entry.
unfoldable pub refresh : ℕ → CacheRecord → CacheRecord → CacheRecord
refresh now new old = record old {
  dns_record = record old.dns_record { ttl = new.dns_record.ttl };
  expiry = new.expiry;
  last_query = now;
}

-- Add past the building of the entry.
unfoldable pub store_entry : ℕ → CacheRecord → List CacheRecord → List CacheRecord
store_entry now new [] = record new { last_query = now } ∷ []
store_entry now new (c ∷ cs) =
    if same_entry c new then refresh now new c ∷ cs else c ∷ store_entry now new cs

module _ (lib : RrLibrary) where
  open lib use {Rr, name, type, ttl, view, to_string}

  -- The `switch` of Add.
  pub value_of : Rr → RrView → Text
  value_of rr (a ip) = ip
  value_of rr (aaaa ip) = ip
  value_of rr (cname target) = target
  value_of rr (mx preference host) = words (decimal preference ∷ host ∷ [])
  value_of rr (ns host) = host
  value_of rr (soa host mbox serial refresh retry expire minttl) = words (
      host
      ∷ mbox
      ∷ decimal serial
      ∷ decimal refresh
      ∷ decimal retry
      ∷ decimal expire
      ∷ decimal minttl
      ∷ [])
  value_of rr (txt parts) = words parts
  value_of rr other = to_string rr

  unfoldable pub entry_of : Clock → Rr → ℕ → CacheRecord
  unfolding value_of
  entry_of clock rr min_ttl =
      let t = floor_ttl (ttl rr) min_ttl in
      record {
        dns_record = record no_record {
          name = name rr;
          type = type rr;
          value = value_of rr (view rr);
          ttl = t;
        };
        expiry = clock.at_expiry + t * second;
        timestamp = clock.at_timestamp;
        last_query = 0;
      }

  unfoldable pub add : Clock → List CacheRecord → Rr → ℕ → List CacheRecord
  add clock cs rr min_ttl = store_entry clock.at_query (entry_of clock rr min_ttl) cs

-- The keys that Remove asks for; an empty type or value is no condition.
unfoldable pub is_wanted : Text → Text → Text → CacheRecord → Bool
is_wanted name_key type_key value_key c =
    let t = normalize_record_type c.dns_record.type in
    text_eq (normalize_record_name_key c.dns_record.name) name_key
    && (is_empty type_key || text_eq t type_key)
    && (is_empty value_key || text_eq (normalize_record_value_key t c.dns_record.value) value_key)

-- matchingIdx, from the index `i` on
unfoldable pub matching_from : (CacheRecord → Bool) → List CacheRecord → ℕ → List ℕ
matching_from p [] i = []
matching_from p (c ∷ cs) i = let rest = matching_from p cs (suc i) in if p c then i ∷ rest else rest

usage_cache_remove : List Message
usage_cache_remove =
    message info (says "Usage: cache remove <Name> [Type] [Value]")
    ∷ message info
        (says "Description: Remove a cache entry, optionally narrowing by record type and value.")
    ∷ message info (says "Hint: append '?', 'help', or 'h' after the command to view this usage.")
    ∷ []

-- The entry at `i`, if it is there, is printed.
printed : List CacheRecord → ℕ → List Message
printed cs i = elim (get_elem? cs i) [
  | none ↦ []
  | some c ↦ message info (of_record "- %s %s %s %d" c.dns_record) ∷ []
]

print_all : List CacheRecord → List ℕ → List Message
unfolding printed
print_all cs [] = []
print_all cs (i ∷ is) = printed cs i ++ print_all cs is

unfoldable pub remove_index : List CacheRecord → ℕ → Option CacheRecord → Outcome CacheRecord
remove_index cs i none = done cs []
remove_index cs i (some c) =
    done (remove_at cs i) (message info (of_record "Removed: %s %s %s %d" c.dns_record) ∷ [])

-- Remove past the search.
unfoldable pub remove_matching : List CacheRecord → Bool → List ℕ → Outcome CacheRecord
unfolding usage_cache_remove print_all
remove_matching cs has_value [] =
    refused cs
      (message warn (says "No records found with the specified criteria.") ∷ usage_cache_remove)
      invalid_args
remove_matching cs has_value (i ∷ []) = remove_index cs i (get_elem? cs i)
remove_matching cs has_value (i ∷ j ∷ is) =
    if has_value
    then remove_index cs i (get_elem? cs i)
    else refused cs
        (message warn (
              says
                "Multiple records found. Please specify the type and value to remove a specific entry.")
            ∷ print_all cs (i ∷ j ∷ is)
          ++ usage_cache_remove)
        invalid_args

-- typeArg and valueArg
type_arg : List Text → Text
type_arg [] = []
type_arg (t ∷ rest) = t

value_arg : List Text → Text
value_arg [] = []
value_arg (t ∷ rest) = words rest

unfoldable pub wanted_value : Text → Text → Text
wanted_value type_key value =
    if is_empty value then [] else normalize_record_value_key type_key value

-- Remove past the help request.
unfoldable pub remove_args : List Text → List CacheRecord → Outcome CacheRecord
unfolding usage_cache_remove type_arg value_arg
remove_args [] cs = refused cs usage_cache_remove help_requested
remove_args (n ∷ rest) cs =
    let type_key = normalize_record_type (type_arg rest) in
    let value_key = wanted_value type_key (value_arg rest) in
    let wanted = is_wanted (normalize_record_name_key (trim_space n)) type_key value_key in
    remove_matching cs (not (is_empty value_key)) (matching_from wanted cs 0)

unfoldable pub remove : List Text → List CacheRecord → Outcome CacheRecord
unfolding usage_cache_remove
remove full_command cs =
    if is_help_request full_command
    then refused cs usage_cache_remove help_requested
    else remove_args full_command cs
