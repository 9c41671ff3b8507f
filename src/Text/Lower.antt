-- ===== src/Text/Lower.antt =====
-- Changes of case, and trimming.
use dnsplane.Base.{ℕ, ◌≡◌, refl, [], ◌∷◌, arith}
use dnsplane.Text.{
  Text, is_space, lower, upper, to_lower, to_upper, trim_left, keep_head, trim_right, trim_space,
}

lower_idem : (c : ℕ) → lower (lower c) ≡ lower c
unfolding lower
lower_idem c = ground arith

upper_idem : (c : ℕ) → upper (upper c) ≡ upper c
unfolding upper
upper_idem c = ground arith

pub to_lower_idem : (s : Text) → to_lower (to_lower s) ≡ to_lower s
unfolding to_lower
to_lower_idem [] = refl
to_lower_idem (c ∷ s) = cc (lower_idem c, to_lower_idem s)

pub to_upper_idem : (s : Text) → to_upper (to_upper s) ≡ to_upper s
unfolding to_upper
to_upper_idem [] = refl
to_upper_idem (c ∷ s) = cc (upper_idem c, to_upper_idem s)

is_space-upper : (c : ℕ) → is_space (upper c) ≡ is_space c
unfolding is_space upper
is_space-upper c = ground arith

is_space-lower : (c : ℕ) → is_space (lower c) ≡ is_space c
unfolding is_space lower
is_space-lower c = ground arith

trim_left-to_upper : (s : Text) → trim_left is_space (to_upper s) ≡ to_upper (trim_left is_space s)
unfolding trim_left to_upper
trim_left-to_upper [] = refl
trim_left-to_upper (c ∷ s) = ground (arith, is_space-upper c, trim_left-to_upper s)

keep_head-to_upper :
    (c : ℕ) (r : Text)
    → keep_head is_space (upper c) (to_upper r) ≡ to_upper (keep_head is_space c r)
unfolding keep_head to_upper
keep_head-to_upper c [] = ground (arith, is_space-upper c)
keep_head-to_upper c (d ∷ r) = refl

trim_right-to_upper :
    (s : Text) → trim_right is_space (to_upper s) ≡ to_upper (trim_right is_space s)
unfolding trim_right to_upper
trim_right-to_upper [] = refl
trim_right-to_upper (c ∷ s) =
    rw (trim_right-to_upper s) (keep_head-to_upper c (trim_right is_space s))

pub trim_space-to_upper : (s : Text) → trim_space (to_upper s) ≡ to_upper (trim_space s)
unfolding trim_space
trim_space-to_upper s = rw (trim_left-to_upper s) (trim_right-to_upper (trim_left is_space s))
