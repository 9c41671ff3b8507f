-- ===== src/RateLimit.antt =====
-- The package ratelimit: the token bucket of each client. A time is a number of nanoseconds on a
-- clock that does not go back, and tokens are counted in units of 10⁻⁹, in which a rate of whole
-- requests in a second adds a whole number; the rounding of the source's floats is not modelled. A
-- limiter that is nil is modelled where it is used, as no limiter.
pub mod Bound
use dnsplane.Base.{
  ℕ, ◌+◌, ◌-◌, ◌*◌, Bool, true, false, ◌&&◌, not, List, [], ◌∷◌, Option, none, some, is_empty,
  is_some, length, min, leb, ltb, ◌==◌, if◌then◌else◌,
}
use dnsplane.Text.{Text, codes}
use dnsplane.Text.Dict.{get, put}

-- A token, in its units.
abbrev pub token : ℕ
token = 1000000000

-- entry
pub record Bucket : Type 0 where
  pub tokens : ℕ
  pub last : ℕ

pub record PerIp : Type 0 where
  pub buckets : List (Text × Bucket)
  pub rps : ℕ
  pub burst : ℕ
  pub max_ips : ℕ

unfoldable pub new_per_ip : ℕ → ℕ → PerIp
new_per_ip rps burst = record {
  buckets = [];
  rps = rps;
  burst = if ltb burst 1 then 1 else burst;
  max_ips = 10000;
}

-- The key of a client; `host` is the host of net.SplitHostPort, `none` where it gives an error.
unfoldable pub key_of : Option Text → Text → Text
key_of none ip = if is_empty ip then codes "unknown" else ip
key_of (some host) ip = if is_empty host then codes "unknown" else host

-- The bucket that is found, or a new one.
unfoldable pub bucket_or_full : PerIp → ℕ → Option Bucket → Bucket
bucket_or_full p now none = record { tokens = p.burst * token; last = now }
bucket_or_full p now (some b) = b

-- The tokens after the time that has passed.
unfoldable pub refilled : PerIp → ℕ → Bucket → ℕ
refilled p now b = min (b.tokens + (now - b.last) * p.rps) (p.burst * token)

-- Whether a token is there, and the bucket without it.
unfoldable pub take_token : ℕ → ℕ → Bool × Bucket
take_token now tokens =
    if ltb tokens token
    then (false, record { tokens = tokens; last = now })
    else (true, record { tokens = tokens - token; last = now })

unfoldable pub allow_key : PerIp → ℕ → Text → Bool × PerIp
allow_key p now key =
    let e = get key p.buckets in
    let taken = take_token now (refilled p now (bucket_or_full p now e)) in
    if p.rps == 0
    then (true, p)
    else
        -- a new client while the map is full: fail open
        if leb p.max_ips (length p.buckets) && not (is_some e)
    then (true, p)
    else (taken.0, record p { buckets = put key taken.1 p.buckets })

unfoldable pub allow : (Text → Option Text) → PerIp → ℕ → Text → Bool × PerIp
allow split_host_port p now ip = allow_key p now (key_of (split_host_port ip) ip)
