-- ===== src/Resolver/Ends.antt =====
-- resolver/resolver.go: which questions reach an upstream, and that a question ends.
use dnsplane.Base.{
  ℕ, suc, ◌≡◌, ◌≢◌, ◌∙◌, refl, ap, Bool, true, false, ◌&&◌, not, List, [], ◌∷◌, Option, none, some,
  arith, is_empty, length, map, Bool-cases, inl, inr, if◌then◌else◌,
}
use dnsplane.Text.{codes, text_eq}
use dnsplane.Text.Equality.{text_eq→eq}
use dnsplane.Library.{RrLibrary}
use dnsplane.LookupIndex.Answer.{Fast, unhandled, local, rrset, cached}
use dnsplane.Servers.Types.{UpstreamEndpoint}
use dnsplane.Dnssec.{DnssecLibrary}
use dnsplane.Resolver.Race.{
  Msg, UpstreamResult, ParMsg, from_local, from_cache, from_upstream, Reply, race,
}
use dnsplane.Resolver.Order.{locals, caches, upstreams, by_priority, race-by_priority}
use dnsplane.Resolver.Caching.{Question}
use dnsplane.Resolver.Resolve.{
  Store, by_local, by_upstream, by_blocked, hangs, Run, Env, finish, is_address_question,
  check_blocked, builtin_localhost_rrs, process_blocked_domain, process_cached_records,
  process_cached, take_upstream, process_upstream_answer, after_race, is_ptr, ptr_local, ptr_cache,
  messages, settings_of, servers_to_query, ask_upstreams, resolve_uncached, resolve_fast,
  resolve_fast_path, handle_ptr_records, handle_ptr_question, count_answered, handle_question,
}

module _ (lib : RrLibrary) (dns : DnssecLibrary lib) where
  open lib use {Rr}

  if-Of {ℓ κ} :
      {A : Type ℓ} (P : A → Type κ) (b : Bool) (x y : A) → P x → P y → P (if b then x else y)
  if-Of P true x y h k = h
  if-Of P false x y h k = k

  abbrev AsksNone : Run Rr → Type 0
  AsksNone r = r.asked ≡ []

  process_cached_records-AsksNone :
      (env : Env lib dns) (q : Question) (rrs : List Rr) (st : Store) (resp : Msg Rr)
      → AsksNone (process_cached_records lib dns env q rrs st resp)
  unfolding process_cached_records finish
  process_cached_records-AsksNone env q [] st resp = refl
  process_cached_records-AsksNone env q (rr ∷ rrs) st resp = refl

  not_ptr : (q : Question) → is_address_question q ≡ true → is_ptr lib dns q ≡ false
  unfolding is_address_question is_ptr
  not_ptr q h = elim (Bool-cases (text_eq q.type (codes "A"))) [
    | inl e ↦ rw (text_eq→eq q.type (codes "A") e) (unfold text_eq in refl)
    | inr n ↦ rw (text_eq→eq q.type (codes "AAAA") (ground arith)) (unfold text_eq in refl)
  ]

  resolve_uncached-AsksNone :
      (env : Env lib dns) (q : Question) (st : Store) (resp : Msg Rr)
      → is_address_question q ≡ true
      → check_blocked st.block_list q ≡ true
      → AsksNone (resolve_uncached lib dns env q st resp)
  unfolding resolve_uncached finish process_blocked_domain
  resolve_uncached-AsksNone env q st resp a b =
      if-Of AsksNone (not (is_empty (builtin_localhost_rrs lib dns q))) _ _ refl (rw (a, b) refl)

  resolve_fast-AsksNone :
      (env : Env lib dns) (q : Question) (fast : Fast Rr) (st : Store) (resp : Msg Rr)
      → is_address_question q ≡ true
      → check_blocked st.block_list q ≡ true
      → AsksNone (resolve_fast lib dns env q fast st resp)
  unfolding resolve_fast process_cached finish
  resolve_fast-AsksNone env q unhandled st resp a b = resolve_uncached-AsksNone env q st resp a b
  resolve_fast-AsksNone env q (local rrs) st resp a b =
      process_cached_records-AsksNone env q rrs st resp
  resolve_fast-AsksNone env q (rrset rrs stale) st resp a b = refl
  resolve_fast-AsksNone env q (cached rr stale) st resp a b = refl

  -- A question for an address (A or AAAA) whose name the block list blocks asks no upstream while
  -- it is resolved, whatever the local records and the cache give. The refresh that a stale answer
  -- starts in the background is not counted.
  pub handle_question-asks_none :
      (env : Env lib dns) (q : Question) (st : Store) (resp : Msg Rr)
      → is_address_question q ≡ true
      → check_blocked st.block_list q ≡ true
      → (handle_question lib dns env q st resp).asked ≡ []
  unfolding handle_question count_answered resolve_fast_path
  handle_question-asks_none env q st resp a b =
      rw (not_ptr q a) (resolve_fast-AsksNone env q _ st resp a b)

  abbrev Ends : Run Rr → Type 0
  Ends r = r.how ≢ hangs

  -- Every upstream that is asked gives a result in the end, an error or a reply, which arrives; and
  -- the messages of a PTR question are one of the local lookup, one of the cache lookup and those of
  -- the upstreams, in some order.
  pub record IsFair (env : Env lib dns) : Type 0 where
    pub replies_all : (eps : List UpstreamEndpoint) → length (env.replies eps) ≡ length eps
    pub one_local :
        (l : List Rr) (c : Option Rr) (us : List (UpstreamResult Rr))
        → locals (env.arrange (from_local l) (from_cache c) (map from_upstream us)) ≡ l ∷ []
    pub one_cache :
        (l : List Rr) (c : Option Rr) (us : List (UpstreamResult Rr))
        → caches (env.arrange (from_local l) (from_cache c) (map from_upstream us)) ≡ c ∷ []
    pub all_upstreams :
        (l : List Rr) (c : Option Rr) (us : List (UpstreamResult Rr))
        → length (upstreams (env.arrange (from_local l) (from_cache c) (map from_upstream us)))
          ≡ length us

  pub locals-map : (us : List (UpstreamResult Rr)) → locals {Rr = Rr} (map from_upstream us) ≡ []
  locals-map [] = refl
  locals-map (u ∷ us) = locals-map us

  pub caches-map : (us : List (UpstreamResult Rr)) → caches {Rr = Rr} (map from_upstream us) ≡ []
  caches-map [] = refl
  caches-map (u ∷ us) = caches-map us

  pub length-upstreams-map :
      (us : List (UpstreamResult Rr))
      → length (upstreams {Rr = Rr} (map from_upstream us)) ≡ length us
  length-upstreams-map [] = refl
  length-upstreams-map (u ∷ us) = ap (λ (n : ℕ). suc n) (length-upstreams-map us)

  process_cached_records-Ends :
      (env : Env lib dns) (q : Question) (rrs : List Rr) (st : Store) (resp : Msg Rr)
      → Ends (process_cached_records lib dns env q rrs st resp)
  unfolding process_cached_records finish
  process_cached_records-Ends env q [] st resp = λ h. cc
  process_cached_records-Ends env q (rr ∷ rrs) st resp = λ h. cc

  process_upstream_answer-Ends :
      (env : Env lib dns) (q : Question) (m : Msg Rr) (st : Store) (resp : Msg Rr)
      → Ends (process_upstream_answer lib dns env q m st resp)
  unfolding process_upstream_answer finish take_upstream
  process_upstream_answer-Ends env q m st resp =
      if-Of Ends _ _ _ (λ (h : by_upstream ≡ hangs). cc) (λ (h : by_upstream ≡ hangs). cc)

  after_race-Ends :
      (env : Env lib dns) (q : Question) (l : List Rr) (c : Option Rr) (u : Option (Reply Rr))
      (st : Store) (resp : Msg Rr)
      → Ends (after_race lib dns env q (by_priority l c u) st resp)
  unfolding after_race by_priority finish process_cached
  after_race-Ends env q (rr ∷ rrs) c u st resp =
      process_cached_records-Ends env q (rr ∷ rrs) st resp
  after_race-Ends env q [] (some rr) u st resp = λ h. cc
  after_race-Ends env q [] none (some reply) st resp =
      process_upstream_answer-Ends env q reply.msg _ resp
  after_race-Ends env q [] none none st resp = λ h. cc

  -- The race is decided, given its messages.
  decided :
      (env : Env lib dns) (q : Question) (n : ℕ) (l : List Rr) (c : Option Rr)
      (ms : List (ParMsg Rr)) (st : Store) (resp : Msg Rr)
      → locals ms ≡ l ∷ []
      → caches ms ≡ c ∷ []
      → length (upstreams ms) ≡ n
      → Ends (after_race lib dns env q (race n ms) st resp)
  decided env q n l c ms st resp hl hc hn =
      rw (← hn, race-by_priority l c ms hl hc) (after_race-Ends env q l c _ st resp)

  ask_upstreams-Ends :
      (env : Env lib dns) (q : Question) (st : Store) (resp : Msg Rr)
      → IsFair env
      → Ends (ask_upstreams lib dns env q st resp)
  unfolding ask_upstreams messages ptr_local ptr_cache
  ask_upstreams-Ends env q st resp fair =
      let eps = servers_to_query (settings_of st) st.servers st.tracker q.name in
      let us = env.replies eps in
      elim (Bool-cases (is_ptr lib dns q)) [
        | inl e ↦ rw e (
            decided env q (length eps) _ _ _ st resp (fair.one_local _ _ us) (fair.one_cache _ _ us)
              (fair.all_upstreams _ _ us ∙ fair.replies_all eps))
        | inr n ↦ rw n (
            decided env q (length eps) [] none
              (from_local [] ∷ from_cache none ∷ map from_upstream us) st resp
              (ap (λ (ls : List (List Rr)). [] ∷ ls) (locals-map us))
              (ap (λ (cs : List (Option Rr)). none ∷ cs) (caches-map us))
              (length-upstreams-map us ∙ fair.replies_all eps))
      ]

  resolve_uncached-Ends :
      (env : Env lib dns) (q : Question) (st : Store) (resp : Msg Rr)
      → IsFair env
      → Ends (resolve_uncached lib dns env q st resp)
  unfolding resolve_uncached process_blocked_domain finish
  resolve_uncached-Ends env q st resp fair =
      elim (Bool-cases (not (is_empty (builtin_localhost_rrs lib dns q)))) [
        | inl e ↦ rw e (λ (h : by_local ≡ hangs). cc)
        | inr n ↦ rw n (elim (Bool-cases (is_address_question q && check_blocked st.block_list q)) [
          | inl e ↦ rw e (λ (h : by_blocked ≡ hangs). cc)
          | inr m ↦ rw m (ask_upstreams-Ends env q st resp fair)
        ])
      ]

  resolve_fast-Ends :
      (env : Env lib dns) (q : Question) (fast : Fast Rr) (st : Store) (resp : Msg Rr)
      → IsFair env
      → Ends (resolve_fast lib dns env q fast st resp)
  unfolding resolve_fast process_cached finish
  resolve_fast-Ends env q unhandled st resp fair = resolve_uncached-Ends env q st resp fair
  resolve_fast-Ends env q (local rrs) st resp fair = process_cached_records-Ends env q rrs st resp
  resolve_fast-Ends env q (rrset rrs stale) st resp fair = λ h. cc
  resolve_fast-Ends env q (cached rr stale) st resp fair = λ h. cc

  resolve_fast_path-Ends :
      (env : Env lib dns) (q : Question) (st : Store) (resp : Msg Rr)
      → IsFair env
      → Ends (resolve_fast_path lib dns env q st resp)
  unfolding resolve_fast_path
  resolve_fast_path-Ends env q st resp fair = elim (Bool-cases (is_ptr lib dns q)) [
    | inl e ↦ rw e (ask_upstreams-Ends env q st resp fair)
    | inr n ↦ rw n (resolve_fast-Ends env q _ st resp fair)
  ]

  handle_ptr_records-Ends :
      (env : Env lib dns) (q : Question) (rrs : List Rr) (st : Store) (resp : Msg Rr)
      → IsFair env
      → Ends (handle_ptr_records lib dns env q rrs st resp)
  unfolding handle_ptr_records
  handle_ptr_records-Ends env q [] st resp fair = resolve_fast_path-Ends env q st resp fair
  handle_ptr_records-Ends env q (rr ∷ rrs) st resp fair =
      process_cached_records-Ends env q (rr ∷ rrs) st resp

  -- Any question ends, where the replies of the upstreams all arrive.
  pub handle_question-ends :
      (env : Env lib dns) (q : Question) (st : Store) (resp : Msg Rr)
      → IsFair env
      → (handle_question lib dns env q st resp).how ≢ hangs
  unfolding handle_question count_answered handle_ptr_question
  handle_question-ends env q st resp fair = elim (Bool-cases (is_ptr lib dns q)) [
    | inl e ↦ rw e (handle_ptr_records-Ends env q _ st resp fair)
    | inr n ↦ rw n (resolve_fast_path-Ends env q st resp fair)
  ]
