-- ===== src/Serve/Handle.antt =====
-- dnsserve/serve.go: ServeDNS. The functions that a dependency may lack are all there: the resolver,
-- the records and the report of a refusal; a limiter may be absent.
use dnsplane.Base.{
  ℕ, suc, ◌*◌, Bool, true, false, ◌&&◌, not, List, [], ◌∷◌, ◌++◌, Option, none, some, is_empty, any,
  leb, ltb, ◌==◌, if◌then◌else◌,
}
use dnsplane.Base.Int.{ℤ, pos, negsuc}
use dnsplane.Text.{Text, codes, text_eq, trim_space}
use dnsplane.Library.{RrLibrary}
use dnsplane.Records.Types.{DnsRecord}
use dnsplane.Abuse.{Limiter, sliding_allow, record_response, rrl_allow, rrl_record_response}
use dnsplane.RateLimit.{PerIp}
use dnsplane.RateLimit
use dnsplane.Dnssec.{DnssecLibrary}
use dnsplane.Servers.Types.{UpstreamEndpoint}
use dnsplane.Resolver.Race.{Msg}
use dnsplane.Resolver.Caching.{Question}
use dnsplane.Resolver.Resolve.{Store, Env, How, hangs, handle_question}
use dnsplane.Serve.{
  Request, ServeLibrary, Settings, opcode_update, rcode_not_implemented, rcode_refused, reply_with,
}
use dnsplane.Serve.Transfer.{try_serve_axfr}

-- The two that implement ResponseLimiter; RRL with its slip.
pub data ResponseLimiter : Type 0 where
  sliding : Limiter → ResponseLimiter
  rrl : Limiter → ℕ → ResponseLimiter

-- What ServeDNS changes: the resolver's store, the limiters, and the reasons that are reported.
pub record Server : Type 0 where
  pub store : Store
  pub query_limiter : Option PerIp
  pub response_limiter : Option ResponseLimiter
  pub drops : List Text

unfoldable pub response_allow : Option ResponseLimiter → ℕ → Option ℕ → Text → Text → Bool
response_allow none now random ip qname = true
response_allow (some (sliding s)) now random ip qname = sliding_allow s now ip
response_allow (some (rrl r slip)) now random ip qname = rrl_allow r slip random now ip qname

unfoldable pub response_recorded : Option ResponseLimiter → ℕ → Text → Text → Option ResponseLimiter
response_recorded none now ip qname = none
response_recorded (some (sliding s)) now ip qname = some (sliding (record_response s now ip))
response_recorded (some (rrl r slip)) now ip qname =
    some (rrl (rrl_record_response r now ip qname) slip)

unfoldable pub query_allow : (Text → Option Text) → Option PerIp → ℕ → Text → Bool × Option PerIp
query_allow split none now ip = (true, none)
query_allow split (some p) now ip = let got = RateLimit.allow split p now ip in (got.0, some got.1)

unfoldable pub has_any_question : Request → Bool
has_any_question req = any (λ q. text_eq q.type (codes "ANY")) req.questions

unfoldable pub primary_qname : List Question → Text
primary_qname [] = codes "."
primary_qname (q ∷ qs) = q.name

-- clientIP
unfoldable pub client_of : Text → Text
client_of ip = let trimmed = trim_space ip in if is_empty trimmed then codes "unknown" else trimmed

-- The reason of a refusal by the response limiter
unfoldable pub drop_reason : Settings → Text
drop_reason st =
    if text_eq st.dns_response_limit_mode (codes "rrl")
    then codes "response_rrl"
    else codes "response_sliding"

unfoldable pub is_hanging : How → Bool
is_hanging hangs = true
is_hanging _ = false

module _ (lib : RrLibrary) (dns : DnssecLibrary lib) (net : ServeLibrary lib) where
  open lib use {Rr}
  open net use {edns_size, set_edns_size, request_length, reply_length}

  -- IsEdns0 reads the extra records from the last one back, and SetUDPSize writes into the one it
  -- finds. The flag says whether one is found.
  clamp_last : ℕ → List Rr → Bool × List Rr
  clamp_last most [] = (false, [])
  clamp_last most (rr ∷ rrs) =
      let rest = clamp_last most rrs in
      if rest.0 then (true, rr ∷ rest.1) else elim (edns_size rr) as (λ _. Bool × List Rr) [
        | none ↦ (false, rr ∷ rrs)
        | some size ↦ (true, (if ltb most size then set_edns_size rr most else rr) ∷ rrs)
      ]

  unfoldable pub clamp_edns : Msg Rr → ℕ → Msg Rr
  unfolding clamp_last
  clamp_edns resp most =
      if most == 0 then resp else record resp { extra = (clamp_last most resp.extra).1 }

  -- The lengths are there, the first is not 0, and the second is over their ratio.
  unfoldable pub is_amplified : Option ℕ → Option ℕ → ℕ → Bool
  is_amplified (some rw) (some pw) ratio = not (rw == 0) && not (leb pw (ratio * rw))
  is_amplified _ _ ratio = false

  unfoldable pub clamp_amplified : Request → Msg Rr → ℤ → Msg Rr
  unfolding is_amplified
  clamp_amplified req resp (negsuc n) = resp
  clamp_amplified req resp (pos ratio) =
      if not (ratio == 0) && is_amplified (request_length req) (reply_length req resp) ratio
      then record resp { answer = []; ns = []; extra = []; rcode = 2 }
      else resp

  pub record Served : Type 0 where
    pub server : Server
    pub response : Msg Rr
    pub asked : List UpstreamEndpoint

  -- The loop over the questions; `none` where one of them never ends. The outcomes of the world are by
  -- the number of the question.
  unfoldable pub answered : List UpstreamEndpoint → Option Served → Option Served
  answered eps none = none
  answered eps (some s) = some (record s { asked = eps ++ s.asked })

  unfoldable pub answer_all :
      (ℕ → Env lib dns) → ℕ → List Question → Server → Msg Rr → Option Served
  unfolding is_hanging answered
  answer_all env i [] srv resp = some (record { server = srv; response = resp; asked = [] })
  answer_all env i (q ∷ qs) srv resp =
      let run = handle_question lib dns (env i) q srv.store resp in
      let rest = answer_all env (suc i) qs (record srv { store = run.store }) run.response in
      if is_hanging run.how then none else answered run.asked rest

  unfoldable pub refuse : ℕ → Server → Served
  refuse rcode srv = record { server = srv; response = reply_with rcode; asked = [] }

  unfoldable pub recorded : ℕ → Text → Text → Server → Server
  recorded now ip qname srv = record srv {
    response_limiter = response_recorded srv.response_limiter now ip qname;
  }

  -- What is done with the answer of the loop.
  unfoldable pub answered_reply : Settings → ℕ → Text → Request → Option Served → Option Served
  unfolding recorded
  answered_reply st now ip req none = none
  answered_reply st now ip req (some s) = some (record s {
    server = recorded now ip (primary_qname req.questions) s.server;
    response =
        clamp_amplified req (clamp_edns s.response st.dns_max_edns_udp_payload)
          st.dns_amplification_max_ratio;
  })

  unfoldable pub served_transfer : Settings → ℕ → Text → Request → Msg Rr → Server → Served
  unfolding recorded
  served_transfer st now ip req reply srv = record {
    server = recorded now ip (primary_qname req.questions) srv;
    response = clamp_edns reply st.dns_max_edns_udp_payload;
    asked = [];
  }

  -- Behind the limiters
  unfoldable pub serve_allowed :
      Settings → (ℕ → Env lib dns) → ℕ → Text → Request → Option (Msg Rr) → Server → Option Served
  unfolding answer_all answered_reply served_transfer
  serve_allowed st env now ip req (some reply) srv = some (served_transfer st now ip req reply srv)
  serve_allowed st env now ip req none srv =
      answered_reply st now ip req (answer_all env 0 req.questions srv (reply_with 0))

  -- ServeDNS, with the times at which the limiters are asked and at which the response is counted, and
  -- the random number of the response limiter; `none` where it never returns.
  unfoldable pub serve_dns :
      Settings
      → (Text → Option Text)
      → (ℕ → Env lib dns)
      → ℕ
      → ℕ
      → Option ℕ
      → List DnsRecord
      → Text
      → Text
      → Request
      → Server
      → Option Served
  unfolding refuse
  serve_dns st split env now done random recs meta_ip proto req srv =
      let ip = client_of meta_ip in
      let asked = query_allow split srv.query_limiter now ip in
      let srv1 = record srv { query_limiter = asked.1 } in
      if req.opcode == opcode_update
      then some (refuse rcode_not_implemented srv)
      else if st.dns_refuse_any && has_any_question req
      then some (refuse rcode_not_implemented srv)
      else if not asked.0
      then some (refuse rcode_refused (record srv1 { drops = codes "query_rate" ∷ srv.drops }))
      else if not (response_allow srv.response_limiter now random ip (primary_qname req.questions))
      then some (refuse rcode_refused (record srv1 { drops = drop_reason st ∷ srv.drops }))
      else serve_allowed st env done ip req (try_serve_axfr lib net st meta_ip proto recs req) srv1
