-- ===== src/Serve/Amplified.antt =====
-- dnsserve/serve.go: how much longer than its request a reply may be.
use dnsplane.Base.{
  ℕ, ◌*◌, ◌≤◌, ◌<◌, ◌≡◌, ◌⊎◌, refl, sym, ap, subst, ◌∙◌, Bool, true, false, ◌&&◌, not, List, Option,
  none, some, arith, ◌==◌, inl, inr, if◌then◌else◌, Bool-cases,
}
use dnsplane.Base.Int.{pos}
use dnsplane.Text.{Text}
use dnsplane.Library.{RrLibrary}
use dnsplane.Records.Types.{DnsRecord}
use dnsplane.Dnssec.{DnssecLibrary}
use dnsplane.Resolver.Race.{Msg}
use dnsplane.Resolver.Resolve.{Env}
use dnsplane.Serve.{Request, ServeLibrary, Settings}
use dnsplane.Serve.Transfer.{try_serve_axfr}
use dnsplane.Serve.Handle.{
  Server, Served, client_of, query_allow, clamp_edns, clamp_amplified, is_amplified, answered_reply,
  serve_allowed, serve_dns,
}
use dnsplane.Serve.Refused.{IsBare, must_refuse, serve_dns-IsRefusal, serve_dns-allowed}

module _ (lib : RrLibrary) (dns : DnssecLibrary lib) (net : ServeLibrary lib) where
  open lib use {Rr}
  open net use {request_length, reply_length}

  -- The packed reply is at most so many times as long as the packed request, or has no records.
  abbrev pub IsBounded : ℕ → Request → Msg Rr → Type 0
  IsBounded ratio req m =
      (rw pw : ℕ)
      → 0 < rw
      → request_length req ≡ some rw
      → reply_length req m ≡ some pw
      → (pw ≤ ratio * rw) ⊎ IsBare lib dns net m

  clamped-IsBounded :
      (amplified : Bool) (ratio : ℕ) (req : Request) (m bare : Msg Rr)
      → 0 < ratio
      → IsBare lib dns net bare
      → (not (ratio == 0)
          && is_amplified lib dns net (request_length req) (reply_length req m) ratio)
        ≡ amplified
      → IsBounded ratio req (if amplified then bare else m)
  unfolding is_amplified
  clamped-IsBounded true ratio req m bare h b e rw pw nz len_rw len_pw = inr b
  clamped-IsBounded false ratio req m bare h b e rw pw nz len_rw len_pw = inl (ground arith)

  clamp_amplified-IsBounded :
      (ratio : ℕ) (req : Request) (m : Msg Rr)
      → 0 < ratio
      → IsBounded ratio req (clamp_amplified lib dns net req m (pos ratio))
  unfolding clamp_amplified
  clamp_amplified-IsBounded ratio req m h =
      clamped-IsBounded _ ratio req m _ h (refl, refl, refl) refl

  answered_reply-IsBounded :
      (st : Settings) (now ratio : ℕ) (ip : Text) (req : Request) (o : Option (Served lib dns net))
      (s : Served lib dns net)
      → 0 < ratio
      → st.dns_amplification_max_ratio ≡ pos ratio
      → answered_reply lib dns net st now ip req o ≡ some s
      → IsBounded ratio req s.response
  unfolding answered_reply
  answered_reply-IsBounded st now ratio ip req none s h set e = absurd (ground arith)
  answered_reply-IsBounded st now ratio ip req (some t) s h set e =
      let made = clamp_edns lib dns net t.response st.dns_max_edns_udp_payload in
      let out : clamp_amplified lib dns net req made (pos ratio) ≡ s.response = ground arith in
      subst (IsBounded ratio req) out (clamp_amplified-IsBounded ratio req made h)

  -- With a ratio for the amplification that is positive, the reply to a request that is not one
  -- for a transfer is, packed, at most that many times as long as the packed request, or has no
  -- records, provided that both can be packed and the request is not empty.
  pub serve_dns-IsBounded :
      (st : Settings) (split : Text → Option Text) (env : ℕ → Env lib dns) (now done : ℕ)
      (random : Option ℕ) (recs : List DnsRecord) (ip proto : Text) (req : Request) (srv : Server)
      (s : Served lib dns net) (ratio : ℕ)
      → 0 < ratio
      → st.dns_amplification_max_ratio ≡ pos ratio
      → try_serve_axfr lib net st ip proto recs req ≡ none
      → serve_dns lib dns net st split env now done random recs ip proto req srv ≡ some s
      → IsBounded ratio req s.response
  unfolding serve_allowed
  serve_dns-IsBounded st split env now done random recs ip proto req srv s ratio h set plain e =
      elim (Bool-cases (must_refuse lib dns net st split now random ip req srv)) [
        | inl r ↦
            let refused =
              serve_dns-IsRefusal lib dns net st split env now done random recs ip proto req srv
                r in
            let same : refused.0.response ≡ s.response = ground (arith, refused.1) in
            λ rw pw nz len_rw len_pw. inr (subst (IsBare lib dns net) same refused.2.bare)
        | inr n ↦ answered_reply-IsBounded st done ratio (client_of ip) req _ s h set (
            ap
              (λ (reply : Option (Msg Rr)).
                serve_allowed lib dns net st env done (client_of ip) req reply (record srv {
                  query_limiter = (query_allow split srv.query_limiter now (client_of ip)).1;
                }))
              (sym plain)
            ∙ sym
                (serve_dns-allowed lib dns net st split env now done random recs ip proto req srv n)
            ∙ e)
      ]
