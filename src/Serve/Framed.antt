-- ===== src/Serve/Framed.antt =====
-- dnsserve/axfr.go: the records of a zone, between two copies of its SOA.
use dnsplane.Base.{
  ◌≡◌, refl, ◌∙◌, Bool, true, false, ◌&&◌, not, List, [], ◌∷◌, ◌++◌, Option, none, some, arith,
  filter, count_if, inl, inr, Bool-cases, Option-cases,
}
use dnsplane.Text.{Text}
use dnsplane.Library.{RrLibrary}
use dnsplane.Records.Types.{DnsRecord}
use dnsplane.Dnssec.Validate.{collect}
use dnsplane.Serve.{ServeLibrary}
use dnsplane.Serve.Transfer.{
  is_soa, find_soa, insert, sort_records, dns_record_to_rr, in_zone, between, others, zone_records,
  axfr_records_for_zone,
}

-- The record that is made passes a test.
abbrev pub holds {ℓ} : {A : Type ℓ} → (A → Bool) → Option A → Bool
holds t none = false
holds t (some x) = t x

count-insert :
    (t : DnsRecord → Bool) (r : DnsRecord) (rs : List DnsRecord)
    → count_if t (insert r rs) ≡ count_if t (r ∷ rs)
unfolding insert
count-insert t r [] = refl
count-insert t r (s ∷ rs) = ground (arith, count-insert t r rs)

count-sort :
    (t : DnsRecord → Bool) (rs : List DnsRecord) → count_if t (sort_records rs) ≡ count_if t rs
unfolding sort_records
count-sort t [] = refl
count-sort t (r ∷ rs) = ground (arith, count-insert t r (sort_records rs), count-sort t rs)

collect-none {ℓ κ} :
    {A : Type ℓ} {B : Type κ} (f : A → Option B) (x : A) (xs : List A)
    → f x ≡ none
    → collect f (x ∷ xs) ≡ collect f xs
unfolding collect
collect-none f x xs e = rw (collect, e) refl

collect-some {ℓ κ} :
    {A : Type ℓ} {B : Type κ} (f : A → Option B) (x : A) (xs : List A) (b : B)
    → f x ≡ some b
    → collect f (x ∷ xs) ≡ b ∷ collect f xs
unfolding collect
collect-some f x xs b e = rw (collect, e) refl

count-collect {ℓ κ} :
    {A : Type ℓ} {B : Type κ} (t : B → Bool) (f : A → Option B) (xs : List A)
    → count_if t (collect f xs) ≡ count_if (λ x. holds t (f x)) xs
unfolding collect
count-collect t f [] = refl
count-collect t f (x ∷ xs) = elim (Option-cases (f x)) [
  | inl e ↦ rw (collect-none f x xs e, e) (count-collect t f xs)
  | inr (b, e) ↦ rw (collect-some f x xs b e, e, count-collect t f xs) refl
]

count-filter {ℓ} :
    {A : Type ℓ} (t p : A → Bool) (xs : List A)
    → count_if t (filter p xs) ≡ count_if (λ x. p x && t x) xs
count-filter t p [] = refl
count-filter t p (x ∷ xs) = ground (arith, count-filter t p xs)

module _ (lib : RrLibrary) (net : ServeLibrary lib) where
  open lib use {Rr}

  find_soa-found :
      (recs : List DnsRecord) (zone : Text) (soa : DnsRecord)
      → find_soa (filter (in_zone lib net zone) recs) ≡ some soa
      → (is_soa soa ≡ true) × (in_zone lib net zone soa ≡ true)
  unfolding find_soa
  find_soa-found [] zone soa h = absurd (ground arith)
  find_soa-found (r ∷ recs) zone soa h = elim (Bool-cases (in_zone lib net zone r)) [
    | inr n ↦ find_soa-found recs zone soa (ground arith)
    | inl e ↦ elim (Bool-cases (is_soa r)) [
      | inl k ↦ let same : r ≡ soa = ground arith in (rw (← same) k, rw (← same) e)
      | inr n ↦ find_soa-found recs zone soa (ground arith)
    ]
  ]

  -- The zone's SOA stands first and last, and between them stands what the DNS library makes of the
  -- zone's other records, each as often as there are such records.
  pub record IsFramed (recs : List DnsRecord) (zone : Text) (rrs : List Rr) : Type 0 where
    pub soa : DnsRecord
    pub is_the_soa : is_soa soa ≡ true
    pub in_the_zone : in_zone lib net zone soa ≡ true
    pub frame : Rr
    pub made : dns_record_to_rr lib net soa ≡ some frame
    pub middle : List Rr
    pub framed : rrs ≡ frame ∷ middle ++ frame ∷ []
    pub complete :
        (t : Rr → Bool)
        → count_if t middle
          ≡ count_if
              (λ (r : DnsRecord).
                in_zone lib net zone r && (not (is_soa r) && holds t (dns_record_to_rr lib net r)))
              recs

  -- A transfer of a zone that gives records starts and ends with the record that is made of an SOA
  -- of the zone; between the two stands what the DNS library makes of the zone's other records,
  -- each as often as there are such records.
  pub axfr_records_for_zone-IsFramed :
      (recs : List DnsRecord) (zone : Text) (rrs : List Rr)
      → axfr_records_for_zone lib net recs zone ≡ some rrs
      → IsFramed recs zone rrs
  unfolding axfr_records_for_zone zone_records between others
  axfr_records_for_zone-IsFramed recs zone rrs h =
      let here = filter (in_zone lib net zone) recs in
      let make = dns_record_to_rr lib net in
      elim (Option-cases (find_soa here)) [
        | inl e ↦ absurd (ground arith)
        | inr (soa, e) ↦ elim (Option-cases (make soa)) [
          | inl n ↦ absurd (ground arith)
          | inr (frame, k) ↦
              let found = find_soa-found recs zone soa e in
              record {
                soa = soa;
                is_the_soa = found.0;
                in_the_zone = found.1;
                frame = frame;
                made = k;
                middle = collect make (others here);
                framed = ground arith;
                complete = λ t.
                    count-collect t make (others here)
                    ∙ count-sort (λ r. holds t (make r)) (filter (λ r. not (is_soa r)) here)
                    ∙ count-filter (λ r. holds t (make r)) (λ r. not (is_soa r)) here
                    ∙ count-filter (λ r. not (is_soa r) && holds t (make r)) (in_zone lib net zone)
                        recs;
              }
        ]
      ]
