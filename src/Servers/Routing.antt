-- ===== src/Servers/Routing.antt =====
-- dnsservers/dnsservers.go: which servers a name is sent to.
use dnsplane.Base.{
  ◌≡◌, refl, ◌↔◌, ◌≢◌, ◌⊎◌, inl, inr, Bool, true, false, ◌&&◌, not, List, [], ◌∷◌, ◌++◌, arith,
  Bool-cases, any, filter, is_empty, if◌then◌else◌,
}
use dnsplane.Text.{Text, dot, text_eq}
use dnsplane.Text.Equality.{text_eq_iff}
use dnsplane.Text.Suffix.{has_suffix_iff}
use dnsplane.Servers.Types.{DnsServer}
use dnsplane.Servers.Whitelist.{
  normalize_entry, entry_matches, server_matches_query, is_eligible, whitelisted_servers,
  global_servers, servers_for_query,
}

-- The name is the domain, or ends in a dot and the domain.
abbrev pub IsUnder : Text → Text → Type 0
IsUnder q e = (q ≡ e) ⊎ ((p : Text) × (q ≡ p ++ dot ∷ e))

not_empty_iff : (e : Text) → (not (is_empty e) ≡ true) ↔ (e ≢ [])
not_empty_iff [] = (λ h. cc, λ h. absurd (h refl))
not_empty_iff (c ∷ e) = (λ h k. cc, λ h. refl)

-- An entry of a whitelist matches a name exactly when the normalized entry is not empty and the
-- name is the entry or ends in a dot and the entry.
pub entry_matches_iff :
    (q entry : Text)
    → (entry_matches q entry ≡ true)
      ↔ ((normalize_entry entry ≢ []) × IsUnder q (normalize_entry entry))
unfolding entry_matches
entry_matches_iff q entry = (to, from)
  where
    e : Text
    e = normalize_entry entry

    to : entry_matches q entry ≡ true → (e ≢ []) × IsUnder q e
    to h = (
      (not_empty_iff e).0 (ground arith),
      elim (Bool-cases (text_eq q e)) [
        | inl same ↦ inl ((text_eq_iff q e).0 same)
        | inr n ↦ inr ((has_suffix_iff q (dot ∷ e)).0 (ground arith))
      ],
    )

    from : (e ≢ []) × IsUnder q e → entry_matches q entry ≡ true
    from (ne, inl same) = ground (arith, (not_empty_iff e).1 ne, (text_eq_iff q e).1 same)
    from (ne, inr below) =
        ground (arith, (not_empty_iff e).1 ne, (has_suffix_iff q (dot ∷ e)).1 below)

filter-none {ℓ} :
    {A : Type ℓ} (p q : A → Bool) (xs : List A)
    → any q xs ≡ false
    → filter (λ x. p x && q x) xs ≡ []
filter-none p q [] h = refl
filter-none p q (x ∷ xs) h = ground (arith, filter-none p q xs)

any-filter-some {ℓ} :
    {A : Type ℓ} (p q : A → Bool) (xs : List A)
    → any q xs ≡ false
    → not (is_empty (filter (λ x. p x && q x) xs)) ≡ false
any-filter-some p q xs h = rw (filter-none p q xs h)

is_empty-nil : {A : Type 0} (xs : List A) → not (is_empty xs) ≡ false → [] ≡ xs
is_empty-nil [] h = refl
is_empty-nil (x ∷ xs) h = cc

-- A name that the whitelist of some row covers goes to exactly the eligible rows whose whitelist
-- covers it, and to none if no such row is eligible; any other name goes to exactly the eligible
-- rows without a whitelist. The rows keep their order.
pub servers_for_query_lem :
    (rows : List DnsServer) (name : Text) (active_only : Bool)
    → servers_for_query rows name active_only
      ≡ filter
          (λ s.
            is_eligible active_only s
            && (if any (λ r. server_matches_query r name) rows
                then server_matches_query s name
                else is_empty s.domain_whitelist))
          rows
unfolding servers_for_query whitelisted_servers global_servers
servers_for_query_lem rows name active_only =
    let m = λ (s : DnsServer). server_matches_query s name in
    let listed = filter (λ s. is_eligible active_only s && m s) rows in
    elim (Bool-cases (any m rows)) [
      | inl covered ↦ elim (Bool-cases (not (is_empty listed))) [
        | inl some_listed ↦ rw (some_listed, covered)
        | inr none_listed ↦ rw (none_listed, covered) (is_empty-nil listed none_listed)
      ]
      | inr uncovered ↦ rw (any-filter-some (is_eligible active_only) m rows uncovered, uncovered)
    ]
