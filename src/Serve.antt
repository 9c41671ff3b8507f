-- ===== src/Serve.antt =====
-- The package dnsserve: from a request to its reply. The parts of the DNS library and of Go's package
-- net that it calls, and the lengths of the packed messages, are parameters.
pub mod Transfer
pub mod Allowed
pub mod Handle
pub mod Framed
pub mod Refused
pub mod Amplified
use dnsplane.Base.{ℕ, Bool, true, false, List, [], Option}
use dnsplane.Base.Int.{ℤ}
use dnsplane.Text.{Text}
use dnsplane.Library.{RrLibrary}
use dnsplane.Resolver.Race.{Msg}
use dnsplane.Resolver.Caching.{Question}

-- The parts of dns.Msg that are read of a request. The type of a question is its text, so dns.TypeANY
-- is "ANY" and dns.TypeAXFR is "AXFR".
pub record Request : Type 0 where
  pub opcode : ℕ
  pub questions : List Question

-- net.ParseIP, net.ParseCIDR and Contains; dns.CanonicalName and dns.IsSubDomain; the size in an OPT
-- record, `none` of another record, and the record with another size; the lengths that Pack gives a
-- request and its reply, `none` where it gives an error.
pub record ServeLibrary (lib : RrLibrary) : Type 1 where
  pub Net : Type 0
  pub Addr : Type 0
  pub parse_ip : Text → Option Addr
  pub parse_cidr : Text → Option Net
  pub net_contains : Net → Addr → Bool
  pub canonical_name : Text → Text
  pub is_sub_domain : Text → Text → Bool
  pub edns_size : lib.Rr → Option ℕ
  pub set_edns_size : lib.Rr → ℕ → lib.Rr
  pub request_length : Request → Option ℕ
  pub reply_length : Request → Msg lib.Rr → Option ℕ

-- The settings that are read.
pub record Settings : Type 0 where
  pub dns_refuse_any : Bool
  pub axfr_enabled : Bool
  pub axfr_allowed_networks : List Text
  pub dns_max_edns_udp_payload : ℕ
  pub dns_amplification_max_ratio : ℤ
  pub dns_response_limit_mode : Text

-- dns.OpcodeQuery, dns.OpcodeUpdate, dns.RcodeNotImplemented and dns.RcodeRefused
abbrev pub opcode_query : ℕ
opcode_query = 0

abbrev pub opcode_update : ℕ
opcode_update = 5

abbrev pub rcode_not_implemented : ℕ
rcode_not_implemented = 4

abbrev pub rcode_refused : ℕ
rcode_refused = 5

-- SetReply of an empty message, and SetRcode
abbrev pub reply_with : {Rr : Type 0} → ℕ → Msg Rr
reply_with rcode = record {
  rcode = rcode;
  answer = [];
  ns = [];
  extra = [];
  authoritative = false;
  authenticated_data = false;
}
