-- ===== src/Resolver/Race.antt =====
-- The loop of resolveFastPath that takes the results of the local lookup, of the cache lookup and of
-- the upstream queries from one channel, in the order in which they arrive. The times that the loop
-- measures for the statistics are left out; cancel() stops queries whose results are not read.
use dnsplane.Base.{
  ℕ, zero, suc, ◌+◌, Bool, true, false, ◌&&◌, not, List, [], ◌∷◌, Option, none, some, is_empty,
  ◌==◌, if◌then◌else◌,
}
use dnsplane.Servers.Types.{UpstreamEndpoint}

-- The parts of dns.Msg that the resolver reads of an upstream's reply.
pub record Msg (Rr : Type 0) : Type 0 where
  pub rcode : ℕ
  pub answer : List Rr
  pub ns : List Rr
  pub extra : List Rr
  pub authoritative : Bool
  pub authenticated_data : Bool

-- upstreamResult; `none` where the query returned an error or no message
pub record UpstreamResult (Rr : Type 0) : Type 0 where
  pub endpoint : UpstreamEndpoint
  pub msg : Option (Msg Rr)

-- parMsg
pub data ParMsg (Rr : Type 0) : Type 0 where
  from_local : List Rr → ParMsg Rr
  from_cache : Option Rr → ParMsg Rr
  from_upstream : UpstreamResult Rr → ParMsg Rr

-- An endpoint with its reply.
pub record Reply (Rr : Type 0) : Type 0 where
  pub endpoint : UpstreamEndpoint
  pub msg : Msg Rr

-- How the race ends: with an answer, with no answer, by waiting for a message that does not come, or
-- by the end of the `for` with nothing decided.
pub data Race (Rr : Type 0) : Type 0 where
  won_local : List Rr → Race Rr
  won_cache : Rr → Race Rr
  won_upstream : Reply Rr → Race Rr
  no_answer waiting fell_through : Race Rr

-- The variables of the loop.
pub record LoopState (Rr : Type 0) : Type 0 where
  pub local_done : Bool
  pub cache_done : Bool
  pub cache_hit : Option Rr
  pub first_up : Option (Reply Rr)
  pub upstream_seen : ℕ

module _ {Rr : Type 0} where
  abbrev pub loop_start : LoopState Rr
  loop_start = record {
    local_done = false;
    cache_done = false;
    cache_hit = none;
    first_up = none;
    upstream_seen = 0;
  }

  -- `Rcode == RcodeSuccess && len(Answer) > 0`
  unfoldable pub is_success : Msg Rr → Bool
  is_success m = (m.rcode == 0) && not (is_empty m.answer)

  -- The reply, if it counts as a success.
  unfoldable pub success_of : UpstreamEndpoint → Option (Msg Rr) → Option (Reply Rr)
  success_of ep none = none
  success_of ep (some m) = if is_success m then some (record { endpoint = ep; msg = m }) else none

  -- firstUp after one more result
  unfoldable pub accept : Option (Reply Rr) → UpstreamResult Rr → Option (Reply Rr)
  accept (some first) up = some first
  accept none up = success_of up.endpoint up.msg

  -- `if pr.cache != nil { cacheHit = pr.cache }`
  unfoldable pub set_hit : Option Rr → Option Rr → Option Rr
  set_hit old none = old
  set_hit old (some rr) = some rr

  -- The `switch` on the kind of a message that does not end the loop.
  unfoldable pub receive : LoopState Rr → ParMsg Rr → LoopState Rr
  receive st (from_local rrs) = record st { local_done = true }
  receive st (from_cache rr) = record st { cache_done = true; cache_hit = set_hit st.cache_hit rr }
  receive st (from_upstream up) = record st {
    upstream_seen = st.upstream_seen + 1;
    first_up = accept st.first_up up;
  }

  -- The three tests behind `localDone && cacheDone`.
  unfoldable pub decide_done : ℕ → Option Rr → Option (Reply Rr) → ℕ → Option (Race Rr)
  decide_done total (some hit) first seen = some (won_cache hit)
  decide_done total none (some reply) seen = some (won_upstream reply)
  decide_done total none none seen = if seen == total then some no_answer else none

  unfoldable pub decide : ℕ → LoopState Rr → Option (Race Rr)
  decide total st =
      if st.local_done && st.cache_done
      then decide_done total st.cache_hit st.first_up st.upstream_seen
      else none

  -- `len(pr.local) > 0`
  unfoldable pub local_wins : ParMsg Rr → Option (Race Rr)
  local_wins (from_local (rr ∷ rrs)) = some (won_local (rr ∷ rrs))
  local_wins _ = none

  unfoldable pub race_from : ℕ → ℕ → LoopState Rr → List (ParMsg Rr) → Race Rr
  race_from total zero st ms = fell_through
  race_from total (suc rounds) st [] = waiting
  race_from total (suc rounds) st (m ∷ ms) =
      let next = receive st m in
      let rest = race_from total rounds next ms in
      elim (local_wins m) [
        | some won ↦ won
        | none ↦ elim (decide total next) [ some won ↦ won | none ↦ rest ]
      ]

  -- The race of `total` upstreams, over the messages in their order of arrival.
  unfoldable pub race : ℕ → List (ParMsg Rr) → Race Rr
  race total ms = race_from total (2 + total) loop_start ms
