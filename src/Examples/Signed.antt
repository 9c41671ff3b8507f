-- ===== src/Examples/Signed.antt =====
-- A concrete answer with a signature: dnssecvalidate/validate.go.
use dnsplane.Base.{
  ◌≡◌, refl, true, false, not, [], ◌∷◌, Option, none, some, is_empty, if◌then◌else◌,
}
use dnsplane.Text.{Text, codes, text_eq, to_lower}
use dnsplane.Library.{sample_rrs, SampleRr}
use dnsplane.Dnssec.{Rrsig, Dnskey, DnssecLibrary}
use dnsplane.Dnssec.Validate.{
  Config, collect, signed_section, apply_to_upstream_answer, check_signatures, collect_dnskeys,
  all_hold, signature_holds, rrsig_time_valid, rrset_for_signature, find_dnskey, equal_fold,
}
use dnsplane.Safecast.{int_to_uint32_clamp}
use dnsplane.Dnssec.Verified.{AllValid, apply_to_upstream_answer-AllValid}
use dnsplane.Resolver.Race.{Msg}

abbrev signature_of : SampleRr → Option Rrsig
signature_of rr =
    if text_eq rr.type (codes "RRSIG")
    then some (record {
      name = rr.name;
      type_covered = 1;
      key_tag = 7;
      signer_name = codes "example.com.";
      inception = 100;
      expiration = 200;
    })
    else none

abbrev key_of : SampleRr → Option Dnskey
key_of rr =
    if text_eq rr.type (codes "DNSKEY") then some (record { name = rr.name; key_tag = 7 }) else none

-- Every signature on at least one record verifies.
abbrev pub sample_dnssec : DnssecLibrary sample_rrs
sample_dnssec = record {
  rrsig = signature_of;
  dnskey = key_of;
  type_number = λ rr. if text_eq rr.type (codes "A") then 1 else 46;
  verify = λ sig key rrs. not (is_empty rrs);
  fqdn = λ t. t;
  is_sub_domain = λ zone name. text_eq zone name;
  is_rrset = λ rrs. not (is_empty rrs);
}

abbrev rr_of : Text → Text → SampleRr
rr_of name type = record { name = name; type = type; ttl = 60 }

abbrev signed_answer : Msg SampleRr
signed_answer = record {
  rcode = 0;
  answer =
      rr_of (codes "www.example.com.") (codes "A")
      ∷ rr_of (codes "www.example.com.") (codes "RRSIG")
      ∷ [];
  ns = [];
  extra = rr_of (codes "example.com.") (codes "DNSKEY") ∷ [];
  authoritative = false;
  authenticated_data = false;
}

abbrev validating : Config
validating = record { validate = true; strict = true }

signed_answer_ad :
    (apply_to_upstream_answer sample_rrs sample_dnssec validating 150 true
      signed_answer).1.authenticated_data
    ≡ true
unfolding check_signatures collect signed_section text_eq collect_dnskeys all_hold signature_holds
    rrsig_time_valid int_to_uint32_clamp rrset_for_signature find_dnskey equal_fold to_lower
signed_answer_ad = unfold apply_to_upstream_answer in refl

apply_to_upstream_answer-AllValid_example :
    (true ≡ true)
    × (is_empty (collect signature_of (signed_section sample_rrs sample_dnssec signed_answer))
        ≡ false)
    × AllValid sample_rrs sample_dnssec signed_answer 150
        (collect signature_of (signed_section sample_rrs sample_dnssec signed_answer))
apply_to_upstream_answer-AllValid_example =
    apply_to_upstream_answer-AllValid sample_rrs sample_dnssec validating 150 true signed_answer
      refl signed_answer_ad
