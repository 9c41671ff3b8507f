-- ===== src/Cluster/Peers/Merged.antt =====
-- cluster/discovery.go: the addresses that the merge of two lists gives.
use dnsplane.Base.{
  ◌≡◌, refl, sym, subst, ◌∙◌, Bool, true, false, ◌||◌, ◌&&◌, not, List, [], ◌∷◌, ◌++◌, arith, any,
  any-append, is_empty, Bool-cases, inl, inr,
}
use mathlib.Core.List.{append-nil, append_assoc}
use dnsplane.Base.Unique.{Distinct}
use dnsplane.Text.{Text, text_eq, trim_space}
use dnsplane.Text.Equality.{text_eq_iff, text_eq→eq}
use dnsplane.Cluster.Peers.{merge_onto, merge_peer_addrs}

-- The address is in the list.
unfoldable pub lists : Text → List Text → Bool
lists a out = any (λ b. text_eq b a) out

-- Some address of the list, trimmed, is this one.
unfoldable pub names : Text → List Text → Bool
names a addrs = any (λ b. text_eq (trim_space b) a) addrs

lists-merge_onto :
    (a : Text) (out addrs : List Text)
    → lists a (merge_onto out addrs) ≡ lists a out || (not (is_empty a) && names a addrs)
unfolding lists names merge_onto
lists-merge_onto a out [] = ground arith
lists-merge_onto a out (addr ∷ addrs) =
    let t = trim_space addr in
    elim (Bool-cases (is_empty t)) [
      | inl e ↦ rw e (ground (arith, lists-merge_onto a out addrs, text_eq_iff t a))
      | inr n ↦ elim (Bool-cases (any (λ b. text_eq b t) out)) [
        | inl e ↦
            let seen : text_eq t a ≡ true → any (λ b. text_eq b a) out ≡ true =
              λ q. subst (λ z. any (λ b. text_eq b z) out ≡ true) (text_eq→eq t a q) e in
            rw (n, e) (ground (arith, lists-merge_onto a out addrs, seen))
        | inr k ↦
            rw (n, k)
              (ground (
                arith,
                lists-merge_onto a (out ++ t ∷ []) addrs,
                any-append (λ b. text_eq b a) out (t ∷ []),
                text_eq_iff t a,
              ))
      ]
    ]

Distinct-append :
    (out : List Text) (a : Text)
    → Distinct text_eq (λ b. b) out
    → any (λ b. text_eq b a) out ≡ false
    → Distinct text_eq (λ b. b) (out ++ a ∷ [])
Distinct-append [] a d h = (refl, tt)
Distinct-append (b ∷ out) a d h = (
  ground (arith, d.0, any-append (λ x. text_eq x b) out (a ∷ []), text_eq_iff a b, text_eq_iff b a),
  Distinct-append out a d.1 (ground arith),
)

Distinct-merge_onto :
    (out addrs : List Text)
    → Distinct text_eq (λ b. b) out
    → Distinct text_eq (λ b. b) (merge_onto out addrs)
unfolding merge_onto
Distinct-merge_onto out [] d = d
Distinct-merge_onto out (addr ∷ addrs) d =
    let t = trim_space addr in
    elim (Bool-cases (is_empty t)) [
      | inl e ↦ rw e (Distinct-merge_onto out addrs d)
      | inr n ↦ elim (Bool-cases (any (λ b. text_eq b t) out)) [
        | inl e ↦ rw (n, e) (Distinct-merge_onto out addrs d)
        | inr k ↦ rw (n, k) (Distinct-merge_onto (out ++ t ∷ []) addrs (Distinct-append out t d k))
      ]
    ]

merge_onto-prefix :
    (out addrs : List Text) → (rest : List Text) × (merge_onto out addrs ≡ out ++ rest)
unfolding merge_onto
merge_onto-prefix out [] = ([], sym (append-nil out))
merge_onto-prefix out (addr ∷ addrs) =
    let t = trim_space addr in
    elim (Bool-cases (is_empty t)) [
      | inl e ↦ rw e (merge_onto-prefix out addrs)
      | inr n ↦ elim (Bool-cases (any (λ b. text_eq b t) out)) [
        | inl e ↦ rw (n, e) (merge_onto-prefix out addrs)
        | inr k ↦
            let ih = merge_onto-prefix (out ++ t ∷ []) addrs in
            rw (n, k) (t ∷ ih.0, ih.1 ∙ append_assoc out (t ∷ []) ih.0)
      ]
    ]

none_yet : (a : Text) → lists a [] ≡ false
unfolding lists
none_yet a = refl

-- MergePeerAddrs gives distinct addresses: exactly those that are not empty after a trim and
-- stand, trimmed, in one of the two lists. Those of the first list come first, as the merge of
-- that list alone gives them.
pub merge_peer_addrs-Merges :
    (static extra : List Text)
    → Distinct text_eq (λ b. b) (merge_peer_addrs static extra)
      × ((a : Text)
          → lists a (merge_peer_addrs static extra)
            ≡ not (is_empty a) && (names a static || names a extra))
      × ((rest : List Text) × (merge_peer_addrs static extra ≡ merge_peer_addrs static [] ++ rest))
unfolding merge_peer_addrs merge_onto
merge_peer_addrs-Merges static extra = (
  Distinct-merge_onto (merge_onto [] static) extra (Distinct-merge_onto [] static tt),
  λ a. ground (
    arith,
    lists-merge_onto a (merge_onto [] static) extra,
    lists-merge_onto a [] static,
    none_yet a,
  ),
  merge_onto-prefix (merge_onto [] static) extra,
)
