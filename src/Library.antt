-- ===== src/Library.antt =====
-- What the program asks of packages that are not in the repository: github.com/miekg/dns, and the
-- address parser of Go's package net. They are parameters of the model: a section takes one value
-- of this record, and a theorem holds for every such value.
use dnsplane.Base.{ℕ, Bool, true, ◌||◌, List, [], ◌∷◌, Option, none, some, ◌==◌, if◌then◌else◌}
use dnsplane.Text.{Text, text_eq, codes}

pub record DnsLibrary : Type 0 where
  -- the key is in dns.StringToType
  pub string_to_type : Text → Bool
  -- the second result of dns.IsDomainName
  pub is_domain_name : Text → Bool
  -- net.ParseIP does not return nil
  pub parse_ip : Text → Bool

-- A library that accepts every name and address and knows the types A, AAAA, CNAME and PTR.
abbrev pub sample_library : DnsLibrary
sample_library = record {
  string_to_type = λ t.
      text_eq t (codes "A")
      || text_eq t (codes "AAAA")
      || text_eq t (codes "CNAME")
      || text_eq t (codes "PTR");
  is_domain_name = λ t. true;
  parse_ip = λ t. true;
}

-- The fields of a resource record that the program reads by its Go type.
pub data RrView : Type 0 where
  a aaaa cname ns : Text → RrView
  mx : ℕ → Text → RrView
  soa : Text → Text → ℕ → ℕ → ℕ → ℕ → ℕ → RrView
  txt : List Text → RrView
  other : RrView

-- Resource records: the header's name, type (by dns.TypeToString) and TTL, the view, String, the
-- copy of a record with another TTL, and dns.NewRR.
pub record RrLibrary : Type 1 where
  pub Rr : Type 0
  pub name : Rr → Text
  pub type : Rr → Text
  pub ttl : Rr → ℕ
  pub view : Rr → RrView
  pub to_string : Rr → Text
  pub with_ttl : Rr → ℕ → Rr
  pub new_rr : Text → Option Rr

-- Records that are a name, a type and a TTL; the texts that do not start with a dot parse.
pub record SampleRr : Type 0 where
  pub name : Text
  pub type : Text
  pub ttl : ℕ

abbrev sample_parse : Text → Option SampleRr
sample_parse [] = none
sample_parse (c ∷ s) =
    if c == b'.' then none else some (record { name = c ∷ s; type = codes "A"; ttl = 60 })

abbrev pub sample_rrs : RrLibrary
sample_rrs = record {
  Rr = SampleRr;
  name = λ r. r.name;
  type = λ r. r.type;
  ttl = λ r. r.ttl;
  view = λ r. a r.name;
  to_string = λ r. r.name;
  with_ttl = λ r t. record r { ttl = t };
  new_rr = sample_parse;
}
