-- ===== src/Dnssec/Verified.antt =====
-- dnssecvalidate/validate.go: what an outcome says of the signatures.
use dnsplane.Base.{
  ℕ, ◌≡◌, ◌≤◌, Bool, true, false, List, [], ◌∷◌, some, arith, is_empty, min, inl, inr, Option-cases,
}
use dnsplane.Base.Int.{pos}
use dnsplane.Library.{RrLibrary}
use dnsplane.Safecast.{int_to_uint32_clamp_lem, max_uint32}
use dnsplane.Resolver.Race.{Msg}
use dnsplane.Dnssec.{Rrsig, Dnskey, DnssecLibrary}
use dnsplane.Dnssec.Validate.{
  Config, collect, find_dnskey, verify_with, rrset_for_signature, rrsig_time_valid, signature_holds,
  all_hold, signed_section, collect_dnskeys, check_signatures, is_verified,
  apply_to_upstream_answer,
}

module _ (lib : RrLibrary) (dns : DnssecLibrary lib) where
  open lib use {Rr}
  open dns use {rrsig, verify}

  -- A signature that is in time, and a key of the message with which it verifies the records that
  -- it covers, of which there are some.
  pub record IsValid (m : Msg Rr) (now : ℕ) (sig : Rrsig) : Type 0 where
    pub starts : sig.inception ≤ min now max_uint32
    pub ends : min now max_uint32 ≤ sig.expiration
    pub covers : is_empty (rrset_for_signature lib dns (signed_section lib dns m) sig) ≡ false
    pub key : Dnskey
    pub found : find_dnskey (collect_dnskeys lib dns m) sig ≡ some key
    pub verifies :
        verify sig key (rrset_for_signature lib dns (signed_section lib dns m) sig) ≡ true

  abbrev pub AllValid : Msg Rr → ℕ → List Rrsig → Type 0
  AllValid m now [] = Unit {0}
  AllValid m now (sig ∷ sigs) = IsValid m now sig × AllValid m now sigs

  signature_holds-IsValid :
      (m : Msg Rr) (now : ℕ) (sig : Rrsig)
      → signature_holds lib dns (signed_section lib dns m) (collect_dnskeys lib dns m) now sig
        ≡ true
      → IsValid m now sig
  unfolding signature_holds verify_with rrsig_time_valid
  signature_holds-IsValid m now sig h =
      elim (Option-cases (find_dnskey (collect_dnskeys lib dns m) sig)) [
        | inl e ↦ absurd (ground (arith))
        | inr (k, e) ↦ record {
          starts = ground (arith, int_to_uint32_clamp_lem (pos now));
          ends = ground (arith, int_to_uint32_clamp_lem (pos now));
          covers = ground arith;
          key = k;
          found = e;
          verifies = ground arith;
        }
      ]

  all_hold-AllValid :
      (m : Msg Rr) (now : ℕ) (sigs : List Rrsig)
      → all_hold lib dns (signed_section lib dns m) (collect_dnskeys lib dns m) now sigs ≡ true
      → AllValid m now sigs
  unfolding all_hold
  all_hold-AllValid m now [] h = tt
  all_hold-AllValid m now (sig ∷ sigs) h = (
    signature_holds-IsValid m now sig (ground arith),
    all_hold-AllValid m now sigs (ground arith),
  )

  -- With validation on, an upstream's answer keeps the AD bit only if the client's query has the
  -- DO bit, the section has signatures, and each of them is in time, covers at least one record,
  -- and verifies with a key of the message.
  pub apply_to_upstream_answer-AllValid :
      (cfg : Config) (now : ℕ) (wants_do : Bool) (m : Msg Rr)
      → cfg.validate ≡ true
      → (apply_to_upstream_answer lib dns cfg now wants_do m).1.authenticated_data ≡ true
      → (wants_do ≡ true)
        × (is_empty (collect rrsig (signed_section lib dns m)) ≡ false)
        × AllValid m now (collect rrsig (signed_section lib dns m))
  unfolding apply_to_upstream_answer check_signatures is_verified
  apply_to_upstream_answer-AllValid cfg now wants_do m on ad = (
    ground arith,
    ground arith,
    all_hold-AllValid m now (collect rrsig (signed_section lib dns m)) (ground arith),
  )
