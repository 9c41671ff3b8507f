-- ===== src/Adblock.antt =====
-- adblock/adblock.go: the set of blocked domains, the test of a name, and the lines of a list. The
-- Go map[string]bool is a list of its keys without repetition; a nil list, the locks and the fetch
-- of a file or URL are not modelled: the lines come as an argument.
pub mod Blocked
use dnsplane.Base.{
  ℕ, suc, Bool, true, false, ◌&&◌, ◌||◌, not, List, [], ◌∷◌, ◌++◌, is_empty, any, filter, length,
  ◌==◌, if◌then◌else◌,
}
use dnsplane.Text.{
  Text, codes, dot, text_eq, is_space, has_prefix, trim_space, to_lower, trim_dot, split, join,
}

unfoldable pub normalize_domain : Text → Text
normalize_domain domain = trim_dot (to_lower (trim_space domain))

-- bl.domains[d]
unfoldable pub holds : List Text → Text → Bool
holds domains d = any (λ b. text_eq b d) domains

unfoldable pub insert : Text → List Text → List Text
insert d domains = if holds domains d then domains else d ∷ domains

-- parts[i:] for each i
unfoldable pub tails : List Text → List (List Text)
tails [] = []
tails (p ∷ ps) = (p ∷ ps) ∷ tails ps

unfoldable pub is_blocked : List Text → Text → Bool
is_blocked domains domain =
    let d = normalize_domain domain in
    holds domains d || any (λ parts. holds domains (join dot parts)) (tails (split dot d))

unfoldable pub add_domain : List Text → Text → List Text
add_domain domains d = insert (normalize_domain d) domains

unfoldable pub add_domains : List Text → List Text → List Text
add_domains domains [] = domains
add_domains domains (d ∷ ds) = add_domains (add_domain domains d) ds

unfoldable pub remove_domain : List Text → Text → List Text
remove_domain domains d = filter (λ b. not (text_eq b (normalize_domain d))) domains

unfoldable pub clear : List Text → List Text
clear domains = []

unfoldable pub count : List Text → ℕ
count domains = length domains

-- What stands before the first '#'.
unfoldable pub strip_comment : Text → Text
strip_comment [] = []
strip_comment (c ∷ s) = if c == b'#' then [] else c ∷ strip_comment s

-- The word `c ∷ w` at the front of the fields, where `c` is no space and `w` the rest of its word.
unfoldable pub push_byte : Bool → ℕ → List Text → List Text
push_byte true c (w ∷ ws) = (c ∷ w) ∷ ws
push_byte _ c ws = (c ∷ []) ∷ ws

-- The text begins with a byte of a word.
abbrev in_word : Text → Bool
in_word [] = false
in_word (c ∷ s) = not (is_space c)

-- strings.Fields
unfoldable pub fields : Text → List Text
fields [] = []
fields (c ∷ s) = let rest = fields s in if is_space c then rest else push_byte (in_word s) c rest

unfoldable pub is_block_ip : Text → Bool
is_block_ip ip =
    let t = trim_space ip in
    text_eq t (codes "0.0.0.0")
    || text_eq t (codes "127.0.0.1")
    || text_eq t (codes "::")
    || text_eq t (codes "::1")

-- The loop over the fields behind the address.
unfoldable pub domains_of : List Text → List Text
domains_of [] = []
domains_of (f ∷ fs) =
    let d = trim_space f in
    let rest = domains_of fs in
    if is_empty d then rest else if has_prefix d (codes "#") then [] else d ∷ rest

-- `len(fields) < 2`, and the test of the first field
parse_fields : List Text → List Text
parse_fields [] = []
parse_fields (ip ∷ []) = []
parse_fields (ip ∷ f ∷ fs) = if is_block_ip ip then domains_of (f ∷ fs) else []

unfoldable pub parse_adblock_line : Text → List Text
unfolding parse_fields
parse_adblock_line line = parse_fields (fields (trim_space (strip_comment line)))

-- The loop of LoadFromFile and of LoadFromURL.
unfoldable pub load_lines : List Text → List Text → List Text
load_lines domains [] = domains
load_lines domains (line ∷ lines) =
    let t = trim_space line in
    load_lines
      (if is_empty t || has_prefix t (codes "#")
        then domains
        else add_domains domains (parse_adblock_line line))
      lines
