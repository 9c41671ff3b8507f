-- ===== src/Text/Suffix.antt =====
-- A text before a suffix.
use dnsplane.Base.{◌≡◌, refl, ap, ◌↔◌, true, [], ◌∷◌, ◌++◌, arith, inl, inr, Bool-cases}
use dnsplane.Text.{Text, text_eq, has_suffix}
use dnsplane.Text.Equality.{text_eq_refl, text_eq→eq}

has_suffix-append : (p t : Text) → has_suffix (p ++ t) t ≡ true
unfolding has_suffix
has_suffix-append [] [] = unfold text_eq in refl
has_suffix-append [] (c ∷ t) = ground (arith, text_eq_refl (c ∷ t))
has_suffix-append (c ∷ p) t = ground (arith, has_suffix-append p t)

suffix_of_has_suffix : (s t : Text) → has_suffix s t ≡ true → (p : Text) × (s ≡ p ++ t)
unfolding has_suffix
suffix_of_has_suffix [] t h = ([], text_eq→eq [] t h)
suffix_of_has_suffix (c ∷ s) t h = elim (Bool-cases (text_eq (c ∷ s) t)) [
  | inl e ↦ ([], text_eq→eq (c ∷ s) t e)
  | inr n ↦
      let (p, e) = suffix_of_has_suffix s t (ground arith) in (c ∷ p, ap (λ (z : Text). c ∷ z) e)
]

pub has_suffix_iff : (s t : Text) → (has_suffix s t ≡ true) ↔ ((p : Text) × (s ≡ p ++ t))
has_suffix_iff s t = (suffix_of_has_suffix s t, λ (p, e). rw e (has_suffix-append p t))
