-- ===== src/Dnssec.antt =====
-- dnssecvalidate/validate.go and dnssecsign/signer.go: the validation of an upstream's answer, and
-- the signature of a local one. Signatures, keys and the checks of names are those of the DNS
-- library, which is a parameter; the key files of LoadSigner are not modelled.
pub mod Validate
pub mod Sign
pub mod Verified
use dnsplane.Base.{ℕ, Bool, true, false, List, [], Option, none, some}
use dnsplane.Text.{Text, text_eq}
use dnsplane.Library.{RrLibrary, sample_rrs, SampleRr}

-- The fields of dns.RRSIG and of dns.DNSKEY that are read.
pub record Rrsig : Type 0 where
  pub name : Text
  pub type_covered : ℕ
  pub key_tag : ℕ
  pub signer_name : Text
  pub inception : ℕ
  pub expiration : ℕ

pub record Dnskey : Type 0 where
  pub name : Text
  pub key_tag : ℕ

-- The parts of the DNS library: the type assertions, the owner name and the number of a type, Verify,
-- and for the signer Fqdn, IsSubDomain and IsRRset.
pub record DnssecLibrary (lib : RrLibrary) : Type 0 where
  pub rrsig : lib.Rr → Option Rrsig
  pub dnskey : lib.Rr → Option Dnskey
  pub type_number : lib.Rr → ℕ
  pub verify : Rrsig → Dnskey → List lib.Rr → Bool
  pub fqdn : Text → Text
  pub is_sub_domain : Text → Text → Bool
  pub is_rrset : List lib.Rr → Bool
