-- ===== src/Text/Split.antt =====
-- Splitting and joining of texts.
use dnsplane.Base.{ℕ, ◌≡◌, refl, ◌≢◌, List, [], ◌∷◌, ◌++◌, arith, true, not, all, ◌==◌}
use dnsplane.Text.{Text, onto_first, split, join}

split-ne-nil : (sep : ℕ) (s : Text) → split sep s ≢ []
unfolding split onto_first
split-ne-nil sep [] h = cc
split-ne-nil sep (c ∷ s) h = ground (arith, split-ne-nil sep s)

join-onto_first :
    (sep c : ℕ) (parts : List Text)
    → parts ≢ []
    → join sep (onto_first c parts) ≡ c ∷ join sep parts
unfolding join onto_first
join-onto_first sep c [] h = absurd (h refl)
join-onto_first sep c (part ∷ []) h = refl
join-onto_first sep c (part ∷ next ∷ parts) h = refl

join-nil-cons :
    (sep : ℕ) (parts : List Text) → parts ≢ [] → join sep ([] ∷ parts) ≡ sep ∷ join sep parts
unfolding join
join-nil-cons sep [] h = absurd (h refl)
join-nil-cons sep (part ∷ parts) h = refl

pub join-split : (sep : ℕ) (s : Text) → join sep (split sep s) ≡ s
unfolding split
join-split sep [] = unfold join in refl
join-split sep (c ∷ s) = ground (
  arith,
  split-ne-nil sep s,
  join-onto_first sep c (split sep s),
  join-nil-cons sep (split sep s),
  join-split sep s,
)

-- No byte of the text is the separator.
abbrev pub Avoids : ℕ → Text → Type 0
Avoids sep s = all (λ c. not (c == sep)) s ≡ true

pub split_avoiding : (sep : ℕ) (s : Text) → Avoids sep s → split sep s ≡ s ∷ []
unfolding split onto_first
split_avoiding sep [] h = refl
split_avoiding sep (c ∷ s) h = ground (arith, split_avoiding sep s)

pub split-append :
    (sep : ℕ) (s t : Text) → Avoids sep s → split sep (s ++ sep ∷ t) ≡ s ∷ split sep t
unfolding split onto_first
split-append sep [] t h = ground arith
split-append sep (c ∷ s) t h = ground (arith, split-append sep s t)
