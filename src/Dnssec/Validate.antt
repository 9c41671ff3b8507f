-- ===== src/Dnssec/Validate.antt =====
-- dnssecvalidate/validate.go. The clock is an argument, in seconds; `rr == sig`, the test by which
-- the section of a signature is found, compares pointers, so that it holds in the section that the
-- signature was taken from.
use dnsplane.Base.{
  ℕ, Bool, true, false, ◌&&◌, not, List, [], ◌∷◌, ◌++◌, Option, none, some, is_empty, filter, leb,
  ◌==◌, if◌then◌else◌,
}
use dnsplane.Base.Int.{pos}
use dnsplane.Text.{Text, text_eq, to_lower}
use dnsplane.Library.{RrLibrary}
use dnsplane.Safecast.{int_to_uint32_clamp}
use dnsplane.Resolver.Race.{Msg}
use dnsplane.Dnssec.{Rrsig, Dnskey, DnssecLibrary}

pub data Outcome : Type 0 where
  off insecure verified bogus : Outcome

-- cfg.DNSSECValidate and cfg.DNSSECValidateStrict
pub record Config : Type 0 where
  pub validate : Bool
  pub strict : Bool

-- dns.TypeRRSIG
abbrev pub type_rrsig : ℕ
type_rrsig = 46

-- The number of seconds of a time after 1970, and rrsigTimeValid at it
unfoldable pub rrsig_time_valid : Rrsig → ℕ → Bool
rrsig_time_valid sig now =
    let now32 = int_to_uint32_clamp (pos now) in leb sig.inception now32 && leb now32 sig.expiration

-- The elements that the type assertion gives.
unfoldable pub collect {ℓ κ} : {A : Type ℓ} {B : Type κ} → (A → Option B) → List A → List B
collect f [] = []
collect f (x ∷ xs) = let rest = collect f xs in elim (f x) [ none ↦ rest | some b ↦ b ∷ rest ]

-- strings.EqualFold of ASCII texts
unfoldable pub equal_fold : Text → Text → Bool
equal_fold s t = text_eq (to_lower s) (to_lower t)

unfoldable pub find_dnskey : List Dnskey → Rrsig → Option Dnskey
find_dnskey [] sig = none
find_dnskey (k ∷ ks) sig =
    if (k.key_tag == sig.key_tag) && equal_fold k.name sig.signer_name
    then some k
    else find_dnskey ks sig

module _ (lib : RrLibrary) (dns : DnssecLibrary lib) where
  open lib use {Rr, name}
  open dns use {rrsig, dnskey, type_number, verify}

  -- rrsetForSignature in the section of the signature
  unfoldable pub rrset_for_signature : List Rr → Rrsig → List Rr
  rrset_for_signature block sig =
      filter
        (λ rr.
          not (type_number rr == type_rrsig)
          && text_eq (name rr) sig.name
          && (type_number rr == sig.type_covered))
        block

  unfoldable pub verify_with : Option Dnskey → Rrsig → List Rr → Bool
  verify_with none sig rrset = false
  verify_with (some k) sig rrset = verify sig k rrset

  -- One round of the loop: false where it sets ok to false.
  unfoldable pub signature_holds : List Rr → List Dnskey → ℕ → Rrsig → Bool
  unfolding verify_with
  signature_holds block keys now sig =
      let rrset = rrset_for_signature block sig in
      rrsig_time_valid sig now
      && not (is_empty rrset)
      && verify_with (find_dnskey keys sig) sig rrset

  unfoldable pub all_hold : List Rr → List Dnskey → ℕ → List Rrsig → Bool
  all_hold block keys now [] = true
  all_hold block keys now (sig ∷ sigs) =
      let rest = all_hold block keys now sigs in
      if signature_holds block keys now sig then rest else false

  -- The section whose signatures are checked: the answer, or the authority if the answer has none.
  unfoldable pub signed_section : Msg Rr → List Rr
  signed_section m =
      if is_empty (collect rrsig m.answer) && not (is_empty (collect rrsig m.ns))
      then m.ns
      else m.answer

  unfoldable pub collect_dnskeys : Msg Rr → List Dnskey
  collect_dnskeys m = collect dnskey m.answer ++ (collect dnskey m.ns ++ collect dnskey m.extra)

  -- The checks behind the stripping of AD: the outcome, and whether the reply is SERVFAIL.
  unfoldable pub check_signatures : Config → ℕ → Msg Rr → Outcome × Bool
  check_signatures cfg now m =
      let block = signed_section m in
      let sigs = collect rrsig block in
      let keys = collect_dnskeys m in
      if is_empty sigs
      then (insecure, false)
      else if is_empty keys
      then (if cfg.strict then (bogus, true) else (insecure, false))
      else if all_hold block keys now sigs
      then (verified, false)
      else (bogus, cfg.strict)

  unfoldable pub is_verified : Outcome → Bool
  is_verified verified = true
  is_verified _ = false

  -- ApplyToUpstreamAnswer: the outcome, whether the reply is SERVFAIL, and the message with its AD
  -- bit. `wants_do` is whether the client's query has the DO bit.
  unfoldable pub apply_to_upstream_answer : Config → ℕ → Bool → Msg Rr → (Outcome × Bool) × Msg Rr
  unfolding is_verified
  apply_to_upstream_answer cfg now wants_do m =
      let checked = check_signatures cfg now m in
      if cfg.validate
      then (checked, record m { authenticated_data = is_verified checked.0 && wants_do })
      else ((off, false), m)
