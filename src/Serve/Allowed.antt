-- ===== src/Serve/Allowed.antt =====
-- dnsserve/axfr.go: who gets a zone, and how its records are framed.
use dnsplane.Base.{
  ◌≡◌, ◌⊎◌, true, false, ◌&&◌, not, List, some, arith, is_empty, any, inl, inr, Bool-cases,
  Option-cases,
}
use dnsplane.Text.{Text, codes, text_eq, trim_space}
use dnsplane.Text.Equality.{text_eq→eq}
use dnsplane.Library.{RrLibrary}
use dnsplane.Records.Types.{DnsRecord}
use dnsplane.Resolver.Caching.{Question}
use dnsplane.Serve.{ServeLibrary, Settings}
use dnsplane.Serve.Transfer.{parse_cidrs, in_nets, client_ip_allowed, transfer}

module _ (lib : RrLibrary) (net : ServeLibrary lib) where
  open lib use {Rr}
  open net use {Net, Addr, parse_ip, parse_cidr, net_contains, canonical_name}

  -- The client's address is in one of the networks that the settings list, which all parse, over a
  -- transport that may carry a zone, while transfers are on.
  pub record IsEntitled (st : Settings) (ip proto : Text) : Type 0 where
    pub enabled : st.axfr_enabled ≡ true
    pub over : (trim_space proto ≡ codes "tcp") ⊎ (trim_space proto ≡ codes "dot")
    pub nets : List Net
    pub listed : parse_cidrs lib net st.axfr_allowed_networks ≡ some nets
    pub addr : Addr
    pub parsed : parse_ip (trim_space ip) ≡ some addr
    pub inside : any (λ (n : Net). net_contains n addr) nets ≡ true

  proto-over :
      (p : Text)
      → (not (text_eq p (codes "tcp")) && not (text_eq p (codes "dot"))) ≡ false
      → (p ≡ codes "tcp") ⊎ (p ≡ codes "dot")
  proto-over p h = elim (Bool-cases (text_eq p (codes "tcp"))) [
    | inl e ↦ inl (text_eq→eq p (codes "tcp") e)
    | inr n ↦ inr (text_eq→eq p (codes "dot") (ground arith))
  ]

  allowed-inside :
      (ip : Text) (nets : List Net)
      → client_ip_allowed lib net ip nets ≡ true
      → (addr : Addr) × (parse_ip (trim_space ip) ≡ some addr)
        × (any (λ (n : Net). net_contains n addr) nets ≡ true)
  unfolding client_ip_allowed in_nets
  allowed-inside ip nets h = elim (Option-cases (parse_ip (trim_space ip))) [
    | inl e ↦ absurd (ground arith)
    | inr (addr, e) ↦ (addr, e, ground arith)
  ]

  -- A reply to a transfer's question that has records goes only to a client whose address, as it
  -- parses, is in one of the networks that the settings allow, which all parse, over tcp or dot,
  -- while transfers are enabled.
  pub transfer-IsEntitled :
      (st : Settings) (ip proto : Text) (recs : List DnsRecord) (q : Question)
      → is_empty (transfer lib net st ip proto recs q).answer ≡ false
      → IsEntitled st ip proto
  unfolding transfer
  transfer-IsEntitled st ip proto recs q h =
      elim (Option-cases (parse_cidrs lib net st.axfr_allowed_networks)) [
        | inl e ↦ absurd (ground arith)
        | inr (nets, e) ↦
            let inside = allowed-inside ip nets (ground arith) in
            record {
              enabled = ground arith;
              over = proto-over (trim_space proto) (ground arith);
              nets = nets;
              listed = e;
              addr = inside.0;
              parsed = inside.1;
              inside = inside.2;
            }
      ]
