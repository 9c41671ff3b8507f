-- ===== src/Resolver/Order.antt =====
-- resolver/resolver.go: the end of the race, by the results that arrive and not by their order.
use dnsplane.Base.{
  ℕ, zero, suc, ◌+◌, ◌≤◌, ◌<◌, ◌≡◌, refl, ap, ◌≢◌, ◌⊎◌, inl, inr, Bool, true, false, List, [], ◌∷◌,
  Option, none, some, arith, length, all, any, is_empty, is_some,
}
use dnsplane.Resolver.Race.{
  UpstreamResult, ParMsg, from_local, from_cache, from_upstream, Reply, Race, won_local, won_cache,
  won_upstream, no_answer, waiting, LoopState, loop_start, accept, set_hit, receive, decide_done,
  decide, local_wins, race_from, race,
}

module _ {Rr : Type 0} where
  -- The messages of each kind, in their order.
  abbrev pub locals : List (ParMsg Rr) → List (List Rr)
  locals [] = []
  locals (from_local l ∷ ms) = l ∷ locals ms
  locals (from_cache c ∷ ms) = locals ms
  locals (from_upstream u ∷ ms) = locals ms

  abbrev pub caches : List (ParMsg Rr) → List (Option Rr)
  caches [] = []
  caches (from_local l ∷ ms) = caches ms
  caches (from_cache c ∷ ms) = c ∷ caches ms
  caches (from_upstream u ∷ ms) = caches ms

  abbrev pub upstreams : List (ParMsg Rr) → List (UpstreamResult Rr)
  upstreams [] = []
  upstreams (from_local l ∷ ms) = upstreams ms
  upstreams (from_cache c ∷ ms) = upstreams ms
  upstreams (from_upstream u ∷ ms) = u ∷ upstreams ms

  -- The first success, after the one that was seen before.
  unfoldable pub first_success : Option (Reply Rr) → List (UpstreamResult Rr) → Option (Reply Rr)
  first_success best [] = best
  first_success best (u ∷ us) = first_success (accept best u) us

  -- Who wins, by priority: the local records, the cache, the first upstream success.
  unfoldable pub by_priority : List Rr → Option Rr → Option (Reply Rr) → Race Rr
  by_priority (rr ∷ rrs) c u = won_local (rr ∷ rrs)
  by_priority [] (some rr) u = won_cache rr
  by_priority [] none (some reply) = won_upstream reply
  by_priority [] none none = no_answer

  first_success-some :
      (r : Reply Rr) (us : List (UpstreamResult Rr)) → first_success (some r) us ≡ some r
  unfolding first_success accept
  first_success-some r [] = refl
  first_success-some r (u ∷ us) = first_success-some r us

  -- What is still to arrive from the local lookup, whose result is `l`.
  abbrev PendingLocal : Bool → List Rr → List (List Rr) → Type 0
  PendingLocal true l ls = (ls ≡ []) × (l ≡ [])
  PendingLocal false l ls = ls ≡ l ∷ []

  -- The same of the cache lookup, with the hit so far.
  abbrev PendingCache : Bool → Option Rr → Option Rr → List (Option Rr) → Type 0
  PendingCache true hit c cs = (cs ≡ []) × (hit ≡ c)
  PendingCache false hit c cs = (cs ≡ c ∷ []) × (hit ≡ none)

  -- The loop has seen a part of the messages; `ms` are to come.
  record Pending (total : ℕ) (l : List Rr) (c : Option Rr) (u : Option (Reply Rr))
      (st : LoopState Rr) (ms : List (ParMsg Rr)) : Type 0 where
    pending_local : PendingLocal st.local_done l (locals ms)
    pending_cache : PendingCache st.cache_done st.cache_hit c (caches ms)
    pending_upstream : st.upstream_seen + length (upstreams ms) ≡ total
    pending_first : first_success st.first_up (upstreams ms) ≡ u

  -- What the three tests decide is what the priority says.
  decide_done-by_priority :
      (total : ℕ) (hit : Option Rr) (first u : Option (Reply Rr)) (seen : ℕ)
      (us : List (UpstreamResult Rr))
      → seen + length us ≡ total
      → first_success first us ≡ u
      → (decide_done total hit first seen ≡ none)
        ⊎ (decide_done total hit first seen ≡ some (by_priority [] hit u))
  unfolding decide_done by_priority first_success
  decide_done-by_priority total (some h) first u seen us n e = inr refl
  decide_done-by_priority total none (some r) u seen us n e =
      inr (ground (arith, first_success-some r us))
  decide_done-by_priority total none none u seen [] n e = inr (ground arith)
  decide_done-by_priority total none none u seen (x ∷ us) n e = inl (ground arith)

  decide-by_priority :
      (total : ℕ) (l : List Rr) (c : Option Rr) (u : Option (Reply Rr)) (st : LoopState Rr)
      (ms : List (ParMsg Rr))
      → Pending total l c u st ms
      → (decide total st ≡ none) ⊎ (decide total st ≡ some (by_priority l c u))
  unfolding decide
  decide-by_priority total l c u st ms p = ground (
    arith,
    decide_done-by_priority total st.cache_hit st.first_up u st.upstream_seen (upstreams ms)
        p.pending_upstream p.pending_first,
  )

  -- All messages have come, so something is decided.
  decided_at_end :
      (total : ℕ) (l : List Rr) (c : Option Rr) (u : Option (Reply Rr)) (st : LoopState Rr)
      → Pending total l c u st []
      → decide total st ≢ none
  unfolding decide decide_done first_success
  decided_at_end total l c u st p h = ground arith

  receive-Pending :
      (total : ℕ) (l : List Rr) (c : Option Rr) (u : Option (Reply Rr)) (st : LoopState Rr)
      (m : ParMsg Rr) (ms : List (ParMsg Rr))
      → Pending total l c u st (m ∷ ms)
      → local_wins m ≡ none
      → Pending total l c u (receive st m) ms
  unfolding receive local_wins first_success set_hit
  receive-Pending total l c u st (from_local []) ms p h = ground arith
  receive-Pending total l c u st (from_local (rr ∷ rrs)) ms p h = cc
  receive-Pending total l c u st (from_cache none) ms p h = ground arith
  receive-Pending total l c u st (from_cache (some rr)) ms p h = ground arith
  receive-Pending total l c u st (from_upstream up) ms p h = ground arith

  local_wins-by_priority :
      (total : ℕ) (l : List Rr) (c : Option Rr) (u : Option (Reply Rr)) (st : LoopState Rr)
      (m : ParMsg Rr) (ms : List (ParMsg Rr))
      → Pending total l c u st (m ∷ ms)
      → (local_wins m ≡ none) ⊎ (local_wins m ≡ some (by_priority l c u))
  unfolding local_wins by_priority
  local_wins-by_priority total l c u st (from_local []) ms p = inl refl
  local_wins-by_priority total l c u st (from_local (rr ∷ rrs)) ms p = inr (ground arith)
  local_wins-by_priority total l c u st (from_cache rr) ms p = inl refl
  local_wins-by_priority total l c u st (from_upstream up) ms p = inl refl

  race_from-by_priority :
      (total rounds : ℕ) (l : List Rr) (c : Option Rr) (u : Option (Reply Rr)) (st : LoopState Rr)
      (ms : List (ParMsg Rr))
      → Pending total l c u st ms
      → decide total st ≡ none
      → length ms ≤ rounds
      → race_from total rounds st ms ≡ by_priority l c u
  unfolding race_from
  race_from-by_priority total rounds l c u st [] p d h = absurd (decided_at_end total l c u st p d)
  race_from-by_priority total zero l c u st (m ∷ ms) p d h = absurd (omega arith)
  race_from-by_priority total (suc rounds) l c u st (m ∷ ms) p d h =
      elim (local_wins-by_priority total l c u st m ms p) [
        | inr won ↦ rw (won, race_from)
        | inl goes_on ↦
            let next = receive-Pending total l c u st m ms p goes_on in
            elim (decide-by_priority total l c u (receive st m) ms next) [
              | inr won ↦ rw (goes_on, won, race_from)
              | inl open_ ↦
                  rw (goes_on, open_, race_from)
                    (race_from-by_priority total rounds l c u (receive st m) ms next open_
                      (omega arith))
            ]
      ]

  length-parts :
      (ms : List (ParMsg Rr))
      → length ms ≡ length (locals ms) + length (caches ms) + length (upstreams ms)
  length-parts [] = omega arith
  length-parts (from_local l ∷ ms) = omega (arith, length-parts ms)
  length-parts (from_cache c ∷ ms) = omega (arith, length-parts ms)
  length-parts (from_upstream u ∷ ms) = omega (arith, length-parts ms)

  -- When the messages hold one result of the local lookup, one of the cache lookup and the results
  -- of as many upstreams as were asked, in any order of arrival, the loop ends and its winner is
  -- the one by priority: the local records if there are any, else the cached record, else the
  -- first upstream success to arrive, else no answer.
  pub race-by_priority :
      (l : List Rr) (c : Option Rr) (ms : List (ParMsg Rr))
      → locals ms ≡ l ∷ []
      → caches ms ≡ c ∷ []
      → race (length (upstreams ms)) ms ≡ by_priority l c (first_success none (upstreams ms))
  unfolding race decide
  race-by_priority l c ms hl hc =
      race_from-by_priority _ _ l c _ loop_start ms
        (record {
          pending_local = hl;
          pending_cache = (hc, refl);
          pending_upstream = omega arith;
          pending_first = refl;
        })
        refl (omega (arith, length-parts ms, ap length hl, ap length hc))

  first_success-none :
      (first : Option (Reply Rr)) (us : List (UpstreamResult Rr))
      → first_success first us ≡ none
      → first ≡ none
  first_success-none none us h = refl
  first_success-none (some r) us h = ground (arith, first_success-some r us)

  -- Nothing that has come so far decides the race, and a result is missing.
  record Undecided (total : ℕ) (st : LoopState Rr) (ms : List (ParMsg Rr)) : Type 0 where
    no_hit : st.cache_hit ≡ none
    no_local : all is_empty (locals ms) ≡ true
    no_cached : any is_some (caches ms) ≡ false
    no_success : first_success st.first_up (upstreams ms) ≡ none
    missing : st.upstream_seen + length (upstreams ms) < total

  receive-Undecided :
      (total : ℕ) (st : LoopState Rr) (m : ParMsg Rr) (ms : List (ParMsg Rr))
      → Undecided total st (m ∷ ms)
      → Undecided total (receive st m) ms × (local_wins m ≡ none)
  unfolding receive local_wins first_success set_hit
  receive-Undecided total st (from_local []) ms u = ground arith
  receive-Undecided total st (from_local (rr ∷ rrs)) ms u = absurd (ground arith)
  receive-Undecided total st (from_cache none) ms u = ground arith
  receive-Undecided total st (from_cache (some rr)) ms u = absurd (ground arith)
  receive-Undecided total st (from_upstream up) ms u = ground arith

  decide-Undecided :
      (total : ℕ) (st : LoopState Rr) (ms : List (ParMsg Rr))
      → Undecided total st ms
      → decide total st ≡ none
  unfolding decide decide_done
  decide-Undecided total st ms u =
      ground (arith, first_success-none st.first_up (upstreams ms) u.no_success)

  race_from-Undecided :
      (total rounds : ℕ) (st : LoopState Rr) (ms : List (ParMsg Rr))
      → Undecided total st ms
      → length ms < rounds
      → race_from total rounds st ms ≡ waiting
  unfolding race_from
  race_from-Undecided total zero st ms u h = absurd (omega arith)
  race_from-Undecided total (suc rounds) st [] u h = refl
  race_from-Undecided total (suc rounds) st (m ∷ ms) u h =
      let (next, goes_on) = receive-Undecided total st m ms u in
      rw (goes_on, decide-Undecided total (receive st m) ms next, race_from)
        (race_from-Undecided total rounds (receive st m) ms next (omega arith))

  -- When the local lookup and the cache lookup found nothing, no upstream result that arrives is a
  -- success, and fewer upstream results arrive than upstreams were asked, the loop ends up waiting
  -- for a message that does not come.
  pub race-waiting :
      (total : ℕ) (ms : List (ParMsg Rr))
      → locals ms ≡ [] ∷ []
      → caches ms ≡ none ∷ []
      → first_success none (upstreams ms) ≡ none
      → length (upstreams ms) < total
      → race total ms ≡ waiting
  unfolding race
  race-waiting total ms hl hc hs hn =
      race_from-Undecided total (2 + total) loop_start ms
        (record {
          no_hit = refl;
          no_local = rw hl;
          no_cached = rw hc;
          no_success = hs;
          missing = omega arith;
        })
        (omega (arith, length-parts ms, ap length hl, ap length hc))
