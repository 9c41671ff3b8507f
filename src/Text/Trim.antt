-- ===== src/Text/Trim.antt =====
-- What trimming leaves.
use dnsplane.Base.{ℕ, ◌≡◌, refl, Bool, true, false, not, [], ◌∷◌, ◌++◌, arith, all}
use dnsplane.Text.{Text, is_space, trim_left, keep_head, trim_right, trim_space}

keep_head-trim :
    (p : ℕ → Bool) (c : ℕ) (r : Text)
    → trim_right p r ≡ r
    → trim_right p (keep_head p c r) ≡ keep_head p c r
unfolding trim_right
keep_head-trim p c [] h = ground arith
keep_head-trim p c (d ∷ r) h = ground arith

pub trim_right_idem : (p : ℕ → Bool) (s : Text) → trim_right p (trim_right p s) ≡ trim_right p s
unfolding trim_right
trim_right_idem p [] = refl
trim_right_idem p (c ∷ s) = keep_head-trim p c (trim_right p s) (trim_right_idem p s)

-- A text in which no byte passes the test stays as it is.
pub trim_right_none : (p : ℕ → Bool) (s : Text) → all (λ c. not (p c)) s ≡ true → trim_right p s ≡ s
unfolding trim_right
trim_right_none p [] h = refl
trim_right_none p (c ∷ []) h = ground arith
trim_right_none p (c ∷ d ∷ s) h = ground (arith, trim_right_none p (d ∷ s))

pub trim_left_none : (p : ℕ → Bool) (s : Text) → all (λ c. not (p c)) s ≡ true → trim_left p s ≡ s
unfolding trim_left
trim_left_none p [] h = refl
trim_left_none p (c ∷ s) h = ground arith

-- The first byte of a text, if there is one, fails the test.
abbrev pub StartsOff : (ℕ → Bool) → Text → Type 0
StartsOff p [] = Unit {0}
StartsOff p (c ∷ s) = p c ≡ false

-- The last byte of a text, if there is one, fails the test.
abbrev pub EndsOff : (ℕ → Bool) → Text → Type 0
EndsOff p [] = Unit {0}
EndsOff p (c ∷ []) = p c ≡ false
EndsOff p (c ∷ d ∷ s) = EndsOff p (d ∷ s)

pub trim_left-StartsOff : (p : ℕ → Bool) (s : Text) → StartsOff p (trim_left p s)
unfolding trim_left
trim_left-StartsOff p [] = tt
trim_left-StartsOff p (c ∷ s) = ground (arith, trim_left-StartsOff p s)

pub trim_left_off : (p : ℕ → Bool) (s : Text) → StartsOff p s → trim_left p s ≡ s
unfolding trim_left
trim_left_off p [] h = refl
trim_left_off p (c ∷ s) h = ground arith

keep_head-StartsOff :
    (p : ℕ → Bool) (c : ℕ) (r : Text) → p c ≡ false → StartsOff p (keep_head p c r)
unfolding keep_head
keep_head-StartsOff p c [] h = ground arith
keep_head-StartsOff p c (d ∷ r) h = h

trim_right-StartsOff : (p : ℕ → Bool) (s : Text) → StartsOff p s → StartsOff p (trim_right p s)
unfolding trim_right
trim_right-StartsOff p [] h = tt
trim_right-StartsOff p (c ∷ s) h = keep_head-StartsOff p c (trim_right p s) h

keep_head-EndsOff : (p : ℕ → Bool) (c : ℕ) (r : Text) → EndsOff p r → EndsOff p (keep_head p c r)
unfolding keep_head
keep_head-EndsOff p c [] h = ground arith
keep_head-EndsOff p c (d ∷ r) h = h

pub trim_right-EndsOff : (p : ℕ → Bool) (s : Text) → EndsOff p (trim_right p s)
unfolding trim_right
trim_right-EndsOff p [] = tt
trim_right-EndsOff p (c ∷ s) = keep_head-EndsOff p c (trim_right p s) (trim_right-EndsOff p s)

-- Trimming the spaces twice is trimming them once.
pub trim_space_idem : (s : Text) → trim_space (trim_space s) ≡ trim_space s
unfolding trim_space
trim_space_idem s =
    rw
      (trim_left_off is_space _
        (trim_right-StartsOff is_space (trim_left is_space s) (trim_left-StartsOff is_space s)))
      (trim_right_idem is_space (trim_left is_space s))

pub trim_space_none : (s : Text) → all (λ c. not (is_space c)) s ≡ true → trim_space s ≡ s
unfolding trim_space
trim_space_none s h = rw (trim_left_none is_space s h) (trim_right_none is_space s h)

keep_head-all :
    (p q : ℕ → Bool) (c : ℕ) (r : Text)
    → q c ≡ true
    → all q r ≡ true
    → all q (keep_head p c r) ≡ true
unfolding keep_head
keep_head-all p q c [] h k = ground arith
keep_head-all p q c (d ∷ r) h k = ground arith

-- What holds of every byte of a text holds of every byte that trimming leaves.
pub all-trim_right : (p q : ℕ → Bool) (s : Text) → all q s ≡ true → all q (trim_right p s) ≡ true
unfolding trim_right
all-trim_right p q [] h = refl
all-trim_right p q (c ∷ s) h =
    keep_head-all p q c (trim_right p s) (ground arith) (all-trim_right p q s (ground arith))

pub trim_right_off : (p : ℕ → Bool) (s : Text) → EndsOff p s → trim_right p s ≡ s
unfolding trim_right keep_head
trim_right_off p [] h = refl
trim_right_off p (c ∷ []) h = ground arith
trim_right_off p (c ∷ d ∷ s) h = ground (arith, trim_right_off p (d ∷ s))

-- A text before one that keeps a byte is kept whole.
pub trim_right-append :
    (p : ℕ → Bool) (s t : Text) (d : ℕ) (r : Text)
    → trim_right p t ≡ d ∷ r
    → trim_right p (s ++ t) ≡ s ++ (d ∷ r)
unfolding trim_right keep_head
trim_right-append p [] t d r h = h
trim_right-append p (c ∷ []) t d r h = ground arith
trim_right-append p (c ∷ e ∷ s) t d r h = ground (arith, trim_right-append p (e ∷ s) t d r)
