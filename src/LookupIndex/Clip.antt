-- ===== src/LookupIndex/Clip.antt =====
-- data/lookup_index.go: the TTLs of cached RRsets.
use dnsplane.Base.{ℕ, ◌≡◌, refl, ◌∙◌, Bool, List, [], ◌∷◌, arith, min, max, ap₂, if◌then◌else◌, map}
use dnsplane.Library.{RrLibrary}
use dnsplane.LookupIndex.RrSet.{clipped_ttl, clip_rrset_ttls}

pub clipped_ttl_lem :
    (remaining : ℕ) (stale : Bool) (t : ℕ)
    → clipped_ttl remaining stale t ≡ (if stale then 1 else max 1 (min t remaining))
unfolding clipped_ttl
clipped_ttl_lem remaining stale t = ground arith

module _ (lib : RrLibrary) (law : (rr : lib.Rr) (t : ℕ) → lib.ttl (lib.with_ttl rr t) ≡ t) where
  -- The records of a cached answer get the TTL 1 if the answer is stale, and else their own TTL
  -- but at most what remains of the entry's and at least 1, provided that a copy of a record with
  -- another TTL has that TTL.
  clip_rrset_ttls_lem :
      (rrs : List lib.Rr) (remaining : ℕ) (stale : Bool)
      → map lib.ttl (clip_rrset_ttls lib rrs remaining stale)
        ≡ map (λ rr. if stale then 1 else max 1 (min (lib.ttl rr) remaining)) rrs
  unfolding clip_rrset_ttls
  clip_rrset_ttls_lem [] remaining stale = refl
  clip_rrset_ttls_lem (rr ∷ rrs) remaining stale =
      ap₂ (λ (x : ℕ) (xs : List ℕ). x ∷ xs)
        (law rr (clipped_ttl remaining stale (lib.ttl rr))
          ∙ clipped_ttl_lem remaining stale (lib.ttl rr))
        (clip_rrset_ttls_lem rrs remaining stale)
