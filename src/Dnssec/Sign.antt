-- ===== src/Dnssec/Sign.antt =====
-- dnssecsign/signer.go: the signature on a local answer. The key, and what Sign makes of it, are an
-- argument: the times in the signature, the RRset and the class and TTL give the signature's record.
use dnsplane.Base.{
  ℕ, ◌+◌, ◌-◌, ◌*◌, ◌%◌, ◌^◌, Bool, true, false, ◌||◌, not, List, [], ◌∷◌, ◌++◌, Option, none, some,
  is_empty, any, if◌then◌else◌,
}
use dnsplane.Base.Int.{pos}
use dnsplane.Text.{Text, text_eq}
use dnsplane.Library.{RrLibrary}
use dnsplane.Safecast.{int_to_uint32_clamp}
use dnsplane.Resolver.Race.{Msg}
use dnsplane.Dnssec.{Dnskey, DnssecLibrary}

module _ (lib : RrLibrary) (dns : DnssecLibrary lib) where
  open lib use {Rr, ttl}
  open dns use {dnskey, fqdn, is_sub_domain, is_rrset}

  -- Signer: the zone, the DNSKEY record with the zone's name and the TTL 3600, and sig.Sign by the
  -- expiration, the inception, the TTL and the RRset; `none` where it gives an error.
  pub record Signer : Type 0 where
    pub zone : Text
    pub key_record : Rr
    pub sign : ℕ → ℕ → ℕ → List Rr → Option Rr

  unfoldable pub covers_name : Signer → Text → Bool
  covers_name s qname = is_sub_domain s.zone (fqdn qname)

  is_key_of : Text → Option Dnskey → Bool
  is_key_of zone none = false
  is_key_of zone (some k) = text_eq (fqdn k.name) zone

  unfoldable pub has_dnskey_for_zone : List Rr → Text → Bool
  unfolding is_key_of
  has_dnskey_for_zone extra zone = any (λ rr. is_key_of (fqdn zone) (dnskey rr)) extra

  -- uint32 sums and differences
  expiration_of : ℕ → ℕ
  expiration_of now = (now + 30 * 86400) % 2 ^ 32

  inception_of : ℕ → ℕ
  inception_of now = (now + (2 ^ 32 - 3600)) % 2 ^ 32

  first_ttl : List Rr → ℕ
  first_ttl [] = 0
  first_ttl (rr ∷ rrs) = ttl rr

  signature_of : Signer → ℕ → List Rr → Option Rr
  unfolding expiration_of inception_of first_ttl
  signature_of s now rrset =
      let now32 = int_to_uint32_clamp (pos now) in
      s.sign (expiration_of now32) (inception_of now32) (first_ttl rrset) rrset

  add_signature : Signer → Option Rr → Msg Rr → Msg Rr
  add_signature s none m = m
  add_signature s (some sig) m = record m {
    answer = m.answer ++ sig ∷ [];
    extra = if has_dnskey_for_zone m.extra s.zone then m.extra else m.extra ++ s.key_record ∷ [];
    authenticated_data = true;
  }

  -- SignLocalAnswerIfDO; no signer is `none`, and `wants_do` is the DO bit of the query.
  unfoldable pub sign_local_answer_if_do :
      Option Signer → ℕ → Bool → Text → List Rr → Msg Rr → Msg Rr
  unfolding signature_of add_signature
  sign_local_answer_if_do none now wants_do qname rrset m = m
  sign_local_answer_if_do (some s) now wants_do qname rrset m =
      if is_empty rrset || not wants_do || not (covers_name s qname) || not (is_rrset rrset)
      then m
      else add_signature s (signature_of s now rrset) m
