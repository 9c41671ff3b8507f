-- ===== src/Adblock/Blocked.antt =====
-- adblock/adblock.go: which names a list of domains blocks.
use dnsplane.Base.{
  ℕ, ◌≡◌, refl, sym, Bool, true, false, ◌||◌, List, [], ◌∷◌, arith, any, ◌==◌, inl, inr, Bool-cases,
  drop,
}
use dnsplane.Text.{Text, dot, text_eq, has_suffix, onto_first, split, join}
use dnsplane.Text.Equality.{text_eq→eq}
use dnsplane.Text.Split.{join-split}
use dnsplane.Records.Keys.{text_eq_flip}
use dnsplane.Adblock.{normalize_domain, holds, insert, tails, is_blocked, add_domain}

-- The name is the domain or stands below it.
unfoldable pub is_under : Text → Text → Bool
is_under name domain = text_eq name domain || has_suffix name (dot ∷ domain)

abbrev joins_to : Text → List (List Text) → Bool
joins_to b ps = any (λ parts. text_eq b (join dot parts)) ps

tails-split : (s : Text) → tails (split dot s) ≡ split dot s ∷ tails (drop 1 (split dot s))
unfolding tails split onto_first
tails-split [] = refl
tails-split (c ∷ s) = ground (arith, tails-split s)

drop-onto_first : (c : ℕ) (ps : List Text) → drop 1 (onto_first c ps) ≡ drop 1 ps
unfolding onto_first
drop-onto_first c [] = refl
drop-onto_first c (p ∷ ps) = refl

-- The parts behind some dot spell the domain exactly when the name ends in a dot and the domain.
behind_dot : (b s : Text) → joins_to b (tails (drop 1 (split dot s))) ≡ has_suffix s (dot ∷ b)
unfolding has_suffix split text_eq
behind_dot b [] = unfold tails in refl
behind_dot b (c ∷ s) = elim (Bool-cases (c == dot)) [
  | inl e ↦
      rw e (rw (tails-split s, join-split dot s, text_eq_flip b s) (ground (arith, behind_dot b s)))
  | inr n ↦ rw (n, drop-onto_first c (split dot s)) (ground (arith, behind_dot b s))
]

any-or {ℓ} :
    {A : Type ℓ} (p q : A → Bool) (xs : List A) → any (λ x. p x || q x) xs ≡ any p xs || any q xs
any-or p q [] = refl
any-or p q (x ∷ xs) = ground (arith, any-or p q xs)

any-false {ℓ} : {A : Type ℓ} (xs : List A) → any (λ x. false) xs ≡ false
any-false [] = refl
any-false (x ∷ xs) = any-false xs

any-swap {ℓ κ} :
    {A : Type ℓ} {B : Type κ} (p : A → B → Bool) (xs : List A) (ys : List B)
    → any (λ x. any (p x) ys) xs ≡ any (λ y. any (λ x. p x y) xs) ys
any-swap p [] ys = sym (any-false ys)
any-swap p (x ∷ xs) ys = rw (any-or (p x) (λ y. any (λ z. p z y) xs) ys, any-swap p xs ys) refl

any-same {ℓ} :
    {A : Type ℓ} (p q : A → Bool) (xs : List A) → ((x : A) → p x ≡ q x) → any p xs ≡ any q xs
any-same p q [] h = refl
any-same p q (x ∷ xs) h = rw (h x, any-same p q xs h) refl

-- Spelling the suffixes of a name, one of them is the domain exactly when the name is under it.
joins-is_under : (b s : Text) → text_eq b s || joins_to b (tails (split dot s)) ≡ is_under s b
unfolding is_under tails
joins-is_under b s =
    rw (tails-split s, join-split dot s, text_eq_flip b s, behind_dot b s) (ground arith)

-- A list of domains blocks a name exactly when the name, without the spaces around it and one
-- final dot and in lower case, is one of the domains or ends in a dot and one of them.
pub is_blocked_lem :
    (domains : List Text) (name : Text)
    → is_blocked domains name ≡ any (is_under (normalize_domain name)) domains
unfolding is_blocked holds
is_blocked_lem domains name =
    let s = normalize_domain name in
    rw
      (
        any-swap (λ parts. λ b. text_eq b (join dot parts)) (tails (split dot s)) domains,
        sym (any-or (λ b. text_eq b s) (λ b. joins_to b (tails (split dot s))) domains),
      )
      (any-same (λ b. text_eq b s || joins_to b (tails (split dot s))) (is_under s) domains
        (λ b. joins-is_under b s))

any-held :
    (p : Text → Bool) (d : Text) (domains : List Text)
    → holds domains d ≡ true
    → any p domains ≡ any p domains || p d
unfolding holds
any-held p d [] h = ground arith
any-held p d (b ∷ bs) h = elim (Bool-cases (text_eq b d)) [
  | inl e ↦ rw (text_eq→eq b d e) (ground arith)
  | inr n ↦ ground (arith, any-held p d bs)
]

-- A domain that the list holds already adds nothing.
any-insert :
    (p : Text → Bool) (d : Text) (domains : List Text)
    → any p (insert d domains) ≡ any p domains || p d
unfolding insert
any-insert p d domains = elim (Bool-cases (holds domains d)) [
  | inl e ↦ rw e (any-held p d domains e)
  | inr n ↦ rw n (ground arith)
]

-- After a domain has been added, a name is blocked exactly when it was blocked before or is the
-- added domain or stands below it, name and domain normalized.
is_blocked-add_domain :
    (domains : List Text) (added name : Text)
    → is_blocked (add_domain domains added) name
      ≡ is_blocked domains name || is_under (normalize_domain name) (normalize_domain added)
unfolding add_domain
is_blocked-add_domain domains added name =
    rw (is_blocked_lem (insert (normalize_domain added) domains) name, is_blocked_lem domains name)
      (any-insert (is_under (normalize_domain name)) (normalize_domain added) domains)
