-- ===== src/RateLimit/Bound.antt =====
-- ratelimit/ratelimit.go: how many requests of a client its bucket lets pass.
use dnsplane.Base.{
  ℕ, zero, suc, ◌+◌, ◌-◌, ◌*◌, ◌≤◌, ◌<◌, ◌≡◌, refl, sym, ap, subst, ap₂, ◌∙◌, Bool, true, false,
  ◌&&◌, not, List, [], ◌∷◌, some, arith, ltb, if◌then◌else◌, Bool-cases, inl, inr,
}
use dnsplane.Text.{Text, text_eq}
use dnsplane.Text.Equality.{text_eq_iff}
use dnsplane.Text.Dict.{get, get-put}
use dnsplane.RateLimit.{token, Bucket, PerIp, bucket_or_full, refilled, take_token, allow_key}

-- A request of a client, named by its key, at a time.
pub record Request : Type 0 where
  pub key : Text
  pub now : ℕ

-- The requests come in the order of their times, between two times.
abbrev pub InOrder : ℕ → List Request → ℕ → Type 0
InOrder from [] to = from ≤ to
InOrder from (r ∷ rs) to = (from ≤ r.now) × InOrder r.now rs to

-- How many requests of the client are allowed.
unfoldable pub allowed : Text → PerIp → List Request → ℕ
allowed key p [] = 0
allowed key p (r ∷ rs) =
    let rest = allowed key (allow_key p r.now r.key).1 rs in
    if text_eq r.key key && (allow_key p r.now r.key).0 then suc rest else rest

mul_sum : (a b r : ℕ) → (a + b) * r ≡ a * r + b * r
mul_sum zero b r = omega arith
mul_sum (suc a) b r = omega (arith, mul_sum a b r)

-- The refill over two spans of time.
two_spans : (a b c r : ℕ) → a ≤ b → b ≤ c → (b - a) * r + (c - b) * r ≡ (c - a) * r
two_spans a b c r h k =
    let e : c - a ≡ (b - a) + (c - b) = omega arith in
    rw e (omega (arith, mul_sum (b - a) (c - b) r))

-- The refill does not shrink when the time goes on.
span_grows : (a b c r : ℕ) → a ≤ b → b ≤ c → (c - b) * r ≤ (c - a) * r
span_grows a b c r h k = omega (arith, two_spans a b c r h k)

-- A request does not change the rate, the burst or another client's bucket.
allow_key-keeps :
    (p : PerIp) (now : ℕ) (k key : Text)
    → ((allow_key p now k).1.rps ≡ p.rps)
      × ((allow_key p now k).1.burst ≡ p.burst)
      × (text_eq k key ≡ false → get key (allow_key p now k).1.buckets ≡ get key p.buckets)
unfolding allow_key
allow_key-keeps p now k key = (
  ground arith,
  ground arith,
  λ other. ground (
    arith,
    get-put k key (take_token now (refilled p now (bucket_or_full p now (get k p.buckets)))).1
        p.buckets,
  ),
)

-- What a request does to its own bucket.
allow_key-own :
    (p : PerIp) (now : ℕ) (key : Text) (b : Bucket)
    → 0 < p.rps
    → get key p.buckets ≡ some b
    → ((allow_key p now key).0 ≡ not (ltb (refilled p now b) token))
      × (get key (allow_key p now key).1.buckets ≡ some (take_token now (refilled p now b)).1)
unfolding allow_key bucket_or_full take_token
allow_key-own p now key b pos there =
    let same : text_eq key key ≡ true = (text_eq_iff key key).1 refl in
    (
      ground arith,
      ground (arith, same, get-put key key (take_token now (refilled p now b)).1 p.buckets),
    )

take_token-pays :
    (now tokens : ℕ)
    → ((take_token now tokens).1.last ≡ now)
      × ((take_token now tokens).1.tokens + (if not (ltb tokens token) then token else 0) ≡ tokens)
unfolding take_token
take_token-pays now tokens = ground arith

refilled-le :
    (p : PerIp) (now : ℕ) (b : Bucket)
    → (refilled p now b ≤ b.tokens + (now - b.last) * p.rps) × (refilled p now b ≤ p.burst * token)
unfolding refilled
refilled-le p now b = (omega arith, omega arith)

one_more :
    (ok : Bool) (n left tokens more refill : ℕ)
    → refill ≡ more
    → n * token ≤ left + refill
    → left + (if ok then token else 0) ≡ tokens
    → (if ok then suc n else n) * token ≤ tokens + more
one_more true n left tokens more refill r h e = omega (arith, r, h, e)
one_more false n left tokens more refill r h e = omega (arith, r, h, e)

-- What the later requests of the client cost, against the tokens of its bucket.
abbrev Paid : Text → PerIp → List Request → Bucket → ℕ → Type 0
Paid key p rs b to = allowed key p rs * token ≤ b.tokens + (to - b.last) * p.rps

-- The client's own request, given what is paid behind it.
allowed-own :
    (key : Text) (p : PerIp) (now : ℕ) (rs : List Request) (b : Bucket) (to : ℕ)
    → 0 < p.rps
    → get key p.buckets ≡ some b
    → Paid key (allow_key p now key).1 rs (take_token now (refilled p now b)).1 to
    → allowed key p (record { key = key; now = now } ∷ rs) * token
      ≤ refilled p now b + (to - now) * p.rps
unfolding allowed
allowed-own key p now rs b to pos there paid =
    let same : text_eq key key ≡ true = (text_eq_iff key key).1 refl in
    let pays = take_token-pays now (refilled p now b) in
    rw (same, (allow_key-own p now key b pos there).0)
      (one_more (not (ltb (refilled p now b) token)) (allowed key (allow_key p now key).1 rs)
        (take_token now (refilled p now b)).1.tokens (refilled p now b) ((to - now) * p.rps) _
        (ap₂ (λ (l r : ℕ). (to - l) * r) pays.0 (allow_key-keeps p now key key).0) paid pays.1)

allowed-other :
    (key : Text) (p : PerIp) (r : Request) (rs : List Request)
    → text_eq r.key key ≡ false
    → allowed key p (r ∷ rs) ≡ allowed key (allow_key p r.now r.key).1 rs
unfolding allowed
allowed-other key p r rs other = rw other refl

InOrder-le : (from : ℕ) (rs : List Request) (to : ℕ) → InOrder from rs to → from ≤ to
InOrder-le from [] to h = h
InOrder-le from (r ∷ rs) to (h, ord) = omega (arith, h, InOrder-le r.now rs to ord)

abbrev with_key : ℕ → Text → Request
with_key now k = record { key = k; now = now }

-- A statement on the client's own request, of which only the time is free.
own_request :
    (key : Text) (P : Request → Type 0) (r : Request)
    → text_eq r.key key ≡ true
    → P (record { key = key; now = r.now })
    → P r
own_request key P r same h = subst P (ap (with_key r.now) (sym ((text_eq_iff r.key key).0 same))) h

allowed-tokens :
    (key : Text) (p : PerIp) (rs : List Request) (b : Bucket) (from to : ℕ)
    → 0 < p.rps
    → get key p.buckets ≡ some b
    → b.last ≤ from
    → InOrder from rs to
    → Paid key p rs b to
unfolding allowed
allowed-tokens key p [] b from to pos there h ord = omega arith
allowed-tokens key p (r ∷ rs) b from to pos there h (t, ord) =
    elim (Bool-cases (text_eq r.key key)) [
      | inr other ↦
          let keeps = allow_key-keeps p r.now r.key key in
          let next = (allow_key p r.now r.key).1 in
          let rest =
            allowed-tokens key next rs b r.now to (omega (arith, pos, keeps.0))
              (keeps.2 other ∙ there) (omega arith) ord in
          rw (allowed-other key p r rs other)
            (omega (arith, rest, ap (λ (n : ℕ). (to - b.last) * n) keeps.0))
      | inl same ↦
          let next = (allow_key p r.now key).1 in
          let left = (take_token r.now (refilled p r.now b)).1 in
          let rest =
            allowed-tokens key next rs left r.now to
              (omega (arith, pos, (allow_key-keeps p r.now key key).0))
              (allow_key-own p r.now key b pos there).1
              (omega (arith, (take_token-pays r.now (refilled p r.now b)).0)) ord in
          own_request key (λ (x : Request). Paid key p (x ∷ rs) b to) r same
            (omega (
              arith,
              allowed-own key p r.now rs b to pos there rest,
              (refilled-le p r.now b).0,
              two_spans b.last r.now to p.rps (omega arith) (InOrder-le r.now rs to ord),
            ))
    ]

allowed-refilled :
    (key : Text) (p : PerIp) (now : ℕ) (rs : List Request) (b : Bucket) (to : ℕ)
    → 0 < p.rps
    → get key p.buckets ≡ some b
    → InOrder now rs to
    → allowed key p (record { key = key; now = now } ∷ rs) * token
      ≤ refilled p now b + (to - now) * p.rps
allowed-refilled key p now rs b to pos there ord = allowed-own key p now rs b to pos there (
    allowed-tokens key (allow_key p now key).1 rs (take_token now (refilled p now b)).1 now to
      (omega (arith, pos, (allow_key-keeps p now key key).0))
      (allow_key-own p now key b pos there).1
      (omega (arith, (take_token-pays now (refilled p now b)).0)) ord)

-- Of the requests that come in between two times, in order and not before the last request of the
-- client, the query limiter allows a client that has an entry at most its burst and the rate times
-- the time between. The rate is not 0; tokens are counted in units of 10⁻⁹.
pub allowed-le_burst :
    (key : Text) (p : PerIp) (rs : List Request) (b : Bucket) (from to : ℕ)
    → 0 < p.rps
    → get key p.buckets ≡ some b
    → b.last ≤ from
    → InOrder from rs to
    → allowed key p rs * token ≤ p.burst * token + (to - from) * p.rps
unfolding allowed
allowed-le_burst key p [] b from to pos there h ord = omega arith
allowed-le_burst key p (r ∷ rs) b from to pos there h (t, ord) =
    let over = span_grows from r.now to p.rps t (InOrder-le r.now rs to ord) in
    elim (Bool-cases (text_eq r.key key)) [
      | inr other ↦
          let keeps = allow_key-keeps p r.now r.key key in
          let next = (allow_key p r.now r.key).1 in
          let rest =
            allowed-le_burst key next rs b r.now to (omega (arith, pos, keeps.0))
              (keeps.2 other ∙ there) (omega arith) ord in
          rw (allowed-other key p r rs other)
            (omega (arith, rest, over, keeps.1, ap (λ (n : ℕ). (to - r.now) * n) keeps.0))
      | inl same ↦
          own_request key
            (λ (x : Request).
              allowed key p (x ∷ rs) * token ≤ p.burst * token + (to - from) * p.rps)
            r same
            (omega (
              arith,
              allowed-refilled key p r.now rs b to pos there ord,
              (refilled-le p r.now b).1,
              over,
            ))
    ]
