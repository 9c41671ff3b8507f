-- ===== src/Serve/Refused.antt =====
-- dnsserve/serve.go: the requests that are refused, that every request gets a reply, and how long it is.
use dnsplane.Base.{
  ℕ, suc, ◌≡◌, ◌≢◌, refl, Bool, true, false, ◌&&◌, ◌||◌, not, List, [], ◌∷◌, Option, none, some,
  arith, ◌==◌, inl, inr, Bool-cases,
}
use dnsplane.Text.{Text}
use dnsplane.Library.{RrLibrary}
use dnsplane.Records.Types.{DnsRecord}
use dnsplane.RateLimit.{PerIp}
use dnsplane.Dnssec.{DnssecLibrary}
use dnsplane.Resolver.Race.{Msg}
use dnsplane.Resolver.Caching.{Question}
use dnsplane.Resolver.Resolve.{
  Env, How, hangs, by_local, by_cache, by_upstream, by_none, by_blocked, handle_question,
}
use dnsplane.Resolver.Ends.{IsFair, handle_question-ends}
use dnsplane.Serve.{Request, ServeLibrary, Settings, opcode_update, reply_with}
use dnsplane.Serve.Transfer.{try_serve_axfr}
use dnsplane.Serve.Handle.{
  Server, Served, response_allow, query_allow, has_any_question, primary_qname, client_of,
  is_hanging, answer_all, answered, answered_reply, refuse, serve_allowed, serve_dns,
}

module _ (lib : RrLibrary) (dns : DnssecLibrary lib) (net : ServeLibrary lib) where
  open lib use {Rr}
  open net use {request_length, reply_length}

  abbrev pub IsBare : Msg Rr → Type 0
  IsBare m = (m.answer ≡ []) × (m.ns ≡ []) × (m.extra ≡ [])

  -- A refusal, which leaves the store and the count of the responses as they are.
  pub record IsRefusal (srv : Server) (s : Served lib dns net) : Type 0 where
    pub bare : IsBare s.response
    pub code : s.response.rcode ≢ 0
    pub none_asked : s.asked ≡ []
    pub store_kept : s.server.store ≡ srv.store
    pub uncounted : s.server.response_limiter ≡ srv.response_limiter

  refuse-IsRefusal :
      (rcode : ℕ) (srv next : Server)
      → rcode ≢ 0
      → next.store ≡ srv.store
      → next.response_limiter ≡ srv.response_limiter
      → IsRefusal srv (refuse lib dns net rcode next)
  unfolding refuse
  refuse-IsRefusal rcode srv next nz k l = record {
    bare = (refl, refl, refl);
    code = nz;
    none_asked = refl;
    store_kept = k;
    uncounted = l;
  }

  -- The requests that the first four tests of ServeDNS refuse.
  abbrev pub must_refuse :
      Settings → (Text → Option Text) → ℕ → Option ℕ → Text → Request → Server → Bool
  must_refuse st split now random ip req srv =
      (req.opcode == opcode_update)
      || (st.dns_refuse_any && has_any_question req)
      || not (query_allow split srv.query_limiter now (client_of ip)).0
      || not (
          response_allow srv.response_limiter now random (client_of ip)
            (primary_qname req.questions))

  -- A request that is an UPDATE, that has an ANY question where those are refused, or that the
  -- query limiter or the response limiter does not allow, gets a reply without records whose code
  -- is not success; no upstream is asked, and the store and the response limiter stay as they are.
  pub serve_dns-IsRefusal :
      (st : Settings) (split : Text → Option Text) (env : ℕ → Env lib dns) (now done : ℕ)
      (random : Option ℕ) (recs : List DnsRecord) (ip proto : Text) (req : Request) (srv : Server)
      → must_refuse st split now random ip req srv ≡ true
      → (s : Served lib dns net) × (serve_dns lib dns net st split env now done random recs ip proto
            req srv
          ≡ some s)
        × IsRefusal srv s
  unfolding serve_dns refuse
  serve_dns-IsRefusal st split env now done random recs ip proto req srv h =
      let refusal = λ (rcode : ℕ) (nz : rcode ≢ 0) (drops : List Text) (l : Option PerIp).
        refuse-IsRefusal rcode srv (record srv { drops = drops; query_limiter = l }) nz refl refl in
      elim (Bool-cases (req.opcode == opcode_update)) [
        | inl e ↦ rw e (_, refl, refusal 4 (λ z. omega (arith, z)) _ _)
        | inr n ↦ elim (Bool-cases (st.dns_refuse_any && has_any_question req)) [
          | inl e ↦ rw (n, e) (_, refl, refusal 4 (λ z. omega (arith, z)) _ _)
          | inr m ↦ elim (Bool-cases (query_allow split srv.query_limiter now (client_of ip)).0) [
            | inr e ↦ rw (n, m, e) (_, refl, refusal 5 (λ z. omega (arith, z)) _ _)
            | inl k ↦
                let full : response_allow srv.response_limiter now random (client_of ip)
                      (primary_qname req.questions)
                    ≡ false =
                  ground arith in
                rw (n, m, k, full) (_, refl, refusal 5 (λ z. omega (arith, z)) _ _)
          ]
        ]
      ]

  pub serve_dns-allowed :
      (st : Settings) (split : Text → Option Text) (env : ℕ → Env lib dns) (now done : ℕ)
      (random : Option ℕ) (recs : List DnsRecord) (ip proto : Text) (req : Request) (srv : Server)
      → must_refuse st split now random ip req srv ≡ false
      → serve_dns lib dns net st split env now done random recs ip proto req srv
        ≡ serve_allowed lib dns net st env done
            (client_of ip)
            req
            (try_serve_axfr lib net st ip proto recs req)
            (record srv {
              query_limiter = (query_allow split srv.query_limiter now (client_of ip)).1;
            })
  unfolding serve_dns
  serve_dns-allowed st split env now done random recs ip proto req srv h = ground arith

  is_hanging-false : (how : How) → how ≢ hangs → is_hanging how ≡ false
  unfolding is_hanging
  is_hanging-false by_local h = refl
  is_hanging-false by_cache h = refl
  is_hanging-false by_upstream h = refl
  is_hanging-false by_none h = refl
  is_hanging-false by_blocked h = refl
  is_hanging-false hangs h = absurd (h refl)

  answer_all-replies :
      (env : ℕ → Env lib dns) (i : ℕ) (qs : List Question) (srv : Server) (resp : Msg Rr)
      → ((j : ℕ) → IsFair lib dns (env j))
      → (s : Served lib dns net) × (answer_all lib dns net env i qs srv resp ≡ some s)
  unfolding answer_all answered
  answer_all-replies env i [] srv resp fair = (_, refl)
  answer_all-replies env i (q ∷ qs) srv resp fair =
      let run = handle_question lib dns (env i) q srv.store resp in
      let rest =
        answer_all-replies env (suc i) qs (record srv { store = run.store }) run.response fair in
      rw
        (
          is_hanging-false run.how (handle_question-ends lib dns (env i) q srv.store resp (fair i)),
          rest.1,
        )
        (_, refl)

  serve_allowed-replies :
      (st : Settings) (env : ℕ → Env lib dns) (now : ℕ) (ip : Text) (req : Request)
      (reply : Option (Msg Rr)) (srv : Server)
      → ((j : ℕ) → IsFair lib dns (env j))
      → (s : Served lib dns net) × (serve_allowed lib dns net st env now ip req reply srv ≡ some s)
  unfolding serve_allowed answered_reply
  serve_allowed-replies st env now ip req (some reply) srv fair = (_, refl)
  serve_allowed-replies st env now ip req none srv fair =
      rw (answer_all-replies env 0 req.questions srv (reply_with 0) fair).1 (_, refl)

  -- If, for every question of a request, the upstreams that are asked all give a result that
  -- arrives, ServeDNS returns a reply to the request, whatever the request, the limiters, the
  -- settings and the store are.
  pub serve_dns-replies :
      (st : Settings) (split : Text → Option Text) (env : ℕ → Env lib dns) (now done : ℕ)
      (random : Option ℕ) (recs : List DnsRecord) (ip proto : Text) (req : Request) (srv : Server)
      → ((j : ℕ) → IsFair lib dns (env j))
      → (s : Served lib dns net) × (serve_dns lib dns net st split env now done random recs ip proto
            req srv
          ≡ some s)
  serve_dns-replies st split env now done random recs ip proto req srv fair =
      elim (Bool-cases (must_refuse st split now random ip req srv)) [
        | inl e ↦
            let r = serve_dns-IsRefusal st split env now done random recs ip proto req srv e in
            (r.0, r.1)
        | inr n ↦
            rw (serve_dns-allowed st split env now done random recs ip proto req srv n)
              (serve_allowed-replies st env done (client_of ip) req _ _ fair)
      ]
