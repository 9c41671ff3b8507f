-- ===== src/LookupIndex/RoundTrip.antt =====
-- The text of a cached answer in data/lookup_index.go: written, and read again.
use dnsplane.Base.{ℕ, ◌≡◌, refl, Bool, true, false, List, [], ◌∷◌, ◌++◌, some, arith, is_empty}
use dnsplane.Text.{Text, is_space, trim_right, keep_head, trim_space, split}
use dnsplane.Text.Trim.{StartsOff, EndsOff, trim_left_off, trim_right_off, trim_right-append}
use dnsplane.Text.Prefix.{has_prefix-append, drop-length}
use dnsplane.Text.Split.{Avoids, split_avoiding, split-append}
use dnsplane.Library.{RrLibrary}
use dnsplane.LookupIndex.RrSet.{
  rr_set_cache_prefix, lines_of, build_rrset_cache_value, parse_lines, parse_rrset_cache_value,
  some_lines, parse_rest,
}

is_space-newline : is_space 10 ≡ true
unfolding is_space
is_space-newline = refl

trim_right-line : (s : Text) → EndsOff is_space s → trim_right is_space (s ++ 10 ∷ []) ≡ s
unfolding trim_right keep_head
trim_right-line [] h = ground (arith, is_space-newline)
trim_right-line (c ∷ []) h = ground (arith, is_space-newline)
trim_right-line (c ∷ d ∷ s) h = ground (arith, trim_right-line (d ∷ s))

keep_head-some : (p : ℕ → Bool) (c : ℕ) (r : Text) → is_empty r ≡ false → keep_head p c r ≡ c ∷ r
unfolding keep_head
keep_head-some p c [] h = ground arith
keep_head-some p c (d ∷ r) h = refl

newline_before :
    (t b : Text)
    → trim_right is_space t ≡ b
    → is_empty b ≡ false
    → trim_right is_space (10 ∷ t) ≡ 10 ∷ b
unfolding trim_right
newline_before t b h k = rw h (keep_head-some is_space 10 b k)

is_empty-append : (s t : Text) → is_empty s ≡ false → is_empty (s ++ t) ≡ false
is_empty-append [] t h = ground arith
is_empty-append (c ∷ s) t h = refl

StartsOff-append :
    (p : ℕ → Bool) (s t : Text) → is_empty s ≡ false → StartsOff p s → StartsOff p (s ++ t)
StartsOff-append p [] t h k = absurd (ground arith)
StartsOff-append p (c ∷ s) t h k = k

trim_space_off : (s : Text) → StartsOff is_space s → EndsOff is_space s → trim_space s ≡ s
unfolding trim_space
trim_space_off s h k = rw (trim_left_off is_space s h) (trim_right_off is_space s k)

module _ (lib : RrLibrary) where
  open lib use {Rr, to_string, new_rr}

  -- The text of the record is one line that is not empty, with no space around it, and it parses as
  -- the record.
  pub record IsLine (rr : Rr) : Type 0 where
    pub holds_byte : is_empty (to_string rr) ≡ false
    pub starts : StartsOff is_space (to_string rr)
    pub ends : EndsOff is_space (to_string rr)
    pub one_line : Avoids 10 (to_string rr)
    pub parses : new_rr (to_string rr) ≡ some rr

  abbrev pub AllLines : List Rr → Type 0
  AllLines [] = Unit {0}
  AllLines (rr ∷ rrs) = IsLine rr × AllLines rrs

  -- The lines without the last newline.
  body : Rr → List Rr → Text
  body rr [] = to_string rr
  body rr (next ∷ rrs) = to_string rr ++ 10 ∷ body next rrs

  body-cons : (rr : Rr) (rrs : List Rr) → IsLine rr → is_empty (body rr rrs) ≡ false
  unfolding body
  body-cons rr [] h = h.holds_byte
  body-cons rr (next ∷ rrs) h = is_empty-append (to_string rr) _ h.holds_byte

  trim_right-lines :
      (rr : Rr) (rrs : List Rr)
      → AllLines (rr ∷ rrs)
      → trim_right is_space (lines_of lib (rr ∷ rrs)) ≡ body rr rrs
  unfolding lines_of body
  trim_right-lines rr [] h = trim_right-line (to_string rr) h.0.ends
  trim_right-lines rr (next ∷ rrs) h =
      let later = trim_right-lines next rrs h.1 in
      trim_right-append is_space (to_string rr) (10 ∷ lines_of lib (next ∷ rrs)) 10 (body next rrs)
        (newline_before (lines_of lib (next ∷ rrs)) (body next rrs) later
          (body-cons next rrs h.1.0))

  trim_space-lines :
      (rr : Rr) (rrs : List Rr)
      → AllLines (rr ∷ rrs)
      → trim_space (lines_of lib (rr ∷ rrs)) ≡ body rr rrs
  unfolding trim_space
  trim_space-lines rr rrs h =
      rw
        (trim_left_off is_space (lines_of lib (rr ∷ rrs)) (
          unfold lines_of in
          StartsOff-append is_space (to_string rr) (10 ∷ lines_of lib rrs) h.0.holds_byte
            h.0.starts))
        (trim_right-lines rr rrs h)

  parse_lines-body :
      (rr : Rr) (rrs : List Rr)
      → AllLines (rr ∷ rrs)
      → parse_lines lib (split 10 (body rr rrs)) ≡ some (rr ∷ rrs)
  unfolding body parse_lines
  parse_lines-body rr [] h =
      rw
        (
          split_avoiding 10 (to_string rr) h.0.one_line,
          trim_space_off (to_string rr) h.0.starts h.0.ends,
          h.0.holds_byte,
          h.0.parses,
        )
        refl
  parse_lines-body rr (next ∷ rrs) h =
      rw
        (
          split-append 10 (to_string rr) (body next rrs) h.0.one_line,
          trim_space_off (to_string rr) h.0.starts h.0.ends,
          h.0.holds_byte,
          h.0.parses,
          parse_lines-body next rrs h.1,
        )
        refl

  -- The text that is cached for an answer of at least one record reads back as that answer,
  -- provided that the text of each record is one line that is not empty, has no space around it,
  -- and parses as the record.
  pub parse_rrset_cache_value-build :
      (rr : Rr) (rrs : List Rr)
      → AllLines (rr ∷ rrs)
      → parse_rrset_cache_value lib (build_rrset_cache_value lib (rr ∷ rrs)) ≡ some (rr ∷ rrs)
  unfolding parse_rrset_cache_value build_rrset_cache_value parse_rest some_lines
  parse_rrset_cache_value-build rr rrs h =
      rw
        (
          has_prefix-append rr_set_cache_prefix (lines_of lib (rr ∷ rrs)),
          drop-length rr_set_cache_prefix (lines_of lib (rr ∷ rrs)),
          trim_space-lines rr rrs h,
          body-cons rr rrs h.0,
          parse_lines-body rr rrs h,
        )
        refl
