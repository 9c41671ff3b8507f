-- ===== src/Abuse.antt =====
-- The package abuse: the sliding window of abuse/sliding.go and the response rate limit of
-- abuse/rrl.go. A time is a number of nanoseconds; `now - start >= window` is written as a sum, so
-- that a clock that goes back is no exception. A limiter that is nil is not modelled.
pub mod Window
use Prim.Native.Nat.{bit_xor}
use dnsplane.Base.{
  ℕ, suc, ◌+◌, ◌*◌, ◌/◌, ◌%◌, ◌^◌, Bool, true, false, ◌&&◌, ◌||◌, not, List, [], ◌∷◌, ◌++◌, Option,
  none, some, length, is_some, leb, ltb, ◌==◌, if◌then◌else◌,
}
use dnsplane.Text.{Text}
use dnsplane.Text.Dict.{get, put}

-- swEntry and rrlEntry
pub record Entry : Type 0 where
  pub count : ℕ
  pub start : ℕ

-- SlidingWindow and RRL: the map, the window, the most responses in it, and the most entries, after
-- the default of the constructor. A bucket of RRL has its hash for a text of one number.
pub record Limiter : Type 0 where
  pub entries : List (Text × Entry)
  pub window : ℕ
  pub max_per_window : ℕ
  pub max_entries : ℕ

unfoldable pub new_sliding_window : ℕ → ℕ → ℕ → Limiter
new_sliding_window window max_per_ip max_ips = record {
  entries = [];
  window = window;
  max_per_window = max_per_ip;
  max_entries = if max_ips == 0 then 50000 else max_ips;
}

unfoldable pub new_rrl : ℕ → ℕ → ℕ → Limiter
new_rrl max_per_window window max_buckets = record {
  entries = [];
  window = window;
  max_per_window = max_per_window;
  max_entries = if max_buckets == 0 then 100000 else max_buckets;
}

-- The window of the entry is over.
unfoldable pub is_over : Limiter → Entry → ℕ → Bool
is_over s e now = leb (e.start + s.window) now

-- The tests of Allow on the entry of the key.
unfoldable pub under_cap : Limiter → ℕ → Option Entry → Bool
under_cap s now none = true
under_cap s now (some e) = is_over s e now || ltb e.count s.max_per_window

unfoldable pub sliding_allow : Limiter → ℕ → Text → Bool
sliding_allow s now ip =
    let e = get ip s.entries in
    if s.max_per_window == 0
    then true
    else
        -- a new client while the map is full: fail open
        if leb s.max_entries (length s.entries) && not (is_some e)
    then true
    else under_cap s now e

-- The entry after one more response.
unfoldable pub bumped : Limiter → ℕ → Option Entry → Entry
bumped s now none = record { count = 1; start = now }
bumped s now (some e) =
    if is_over s e now then record { count = 1; start = now } else record e { count = e.count + 1 }

unfoldable pub record_response : Limiter → ℕ → Text → Limiter
record_response s now ip =
    if s.max_per_window == 0
    then s
    else record s { entries = put ip (bumped s now (get ip s.entries)) s.entries }

-- hash/fnv New64a over the bytes
fnv : ℕ → Text → ℕ
fnv h [] = h
fnv h (b ∷ s) = fnv (bit_xor h b * 1099511628211 % 2 ^ 64) s

unfoldable pub rrl_key : Text → Text → Text
unfolding fnv
rrl_key ip qname = fnv 14695981039346656037 (ip ++ 0 ∷ qname) ∷ []

-- slipPass: the probability in units of 2⁻⁵³, and the random 64 bits, `none` where they cannot be read.
unfoldable pub slip_pass : ℕ → Option ℕ → Bool
slip_pass slip none = false
slip_pass slip (some u) = not (slip == 0) && ltb (u / 2048) slip

unfoldable pub rrl_allow : Limiter → ℕ → Option ℕ → ℕ → Text → Text → Bool
rrl_allow r slip random now ip qname =
    sliding_allow r now (rrl_key ip qname) || slip_pass slip random

unfoldable pub rrl_record_response : Limiter → ℕ → Text → Text → Limiter
rrl_record_response r now ip qname = record_response r now (rrl_key ip qname)
