-- ===== src/Text/Prefix.antt =====
-- A text behind a prefix.
use dnsplane.Base.{◌≡◌, refl, true, [], ◌∷◌, ◌++◌, arith, drop, length}
use dnsplane.Text.{Text, has_prefix}

pub has_prefix-append : (p s : Text) → has_prefix (p ++ s) p ≡ true
unfolding has_prefix
has_prefix-append [] s = refl
has_prefix-append (c ∷ p) s = ground (arith, has_prefix-append p s)

pub drop-length : (p s : Text) → drop (length p) (p ++ s) ≡ s
drop-length [] s = refl
drop-length (c ∷ p) s = drop-length p s
