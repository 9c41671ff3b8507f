-- ===== src/IpValidator.antt =====
-- ipvalidator/ipvalidator.go: the version of an IP address given as text. The parse of the address
-- is net.ParseIP's, a parameter.
use dnsplane.Base.{
  ℕ, suc, Bool, true, false, not, ◌&&◌, [], ◌∷◌, ltb, ◌==◌, if◌then◌else◌, length, any,
}
use dnsplane.Text.{Text, trim_space, split}
use dnsplane.Library.{DnsLibrary}

pub data IpType : Type 0 where
  invalid ipv4 ipv6 : IpType

-- strings.Contains(s, c) at one byte
abbrev contains_byte : ℕ → Text → Bool
contains_byte c s = any (λ d. d == c) s

-- An octet that is empty or has a leading zero.
bad_octet : Text → Bool
bad_octet [] = true
bad_octet (c ∷ []) = false
bad_octet (c ∷ d ∷ s) = c == b'0'

-- strings.Count(s, "::")
count_gaps : Text → ℕ
count_gaps [] = 0
count_gaps (c ∷ []) = 0
count_gaps (c ∷ d ∷ s) =
    let skip = count_gaps s in
    let next = count_gaps (d ∷ s) in if (c == b':') && (d == b':') then suc skip else next

-- strings.ReplaceAll(s, "::", ":")
close_gaps : Text → Text
close_gaps [] = []
close_gaps (c ∷ []) = c ∷ []
close_gaps (c ∷ d ∷ s) =
    let skip = b':' ∷ close_gaps s in
    let next = c ∷ close_gaps (d ∷ s) in if (c == b':') && (d == b':') then skip else next

validate_dotted : Text → IpType
unfolding split bad_octet
validate_dotted ip =
    let parts = split b'.' ip in
    if not (length parts == 4) then invalid else if any bad_octet parts then invalid else ipv4

validate_colons : Text → IpType
unfolding split count_gaps close_gaps
validate_colons ip =
    if ltb 1 (count_gaps ip)
    then invalid
    else if any (λ part. ltb 4 (length part)) (split b':' (close_gaps ip))
    then invalid
    else ipv6

module _ (lib : DnsLibrary) where
  -- ValidateIP after the spaces are trimmed
  validate_trimmed : Text → IpType
  unfolding validate_dotted validate_colons
  validate_trimmed [] = invalid
  validate_trimmed (c ∷ s) =
      let ip = c ∷ s in
      if not (lib.parse_ip ip)
      then invalid
      else if contains_byte b'.' ip
      then validate_dotted ip
      else if contains_byte b':' ip
      then validate_colons ip
      else invalid

  unfoldable pub validate_ip : Text → IpType
  unfolding validate_trimmed trim_space
  validate_ip ip = validate_trimmed (trim_space ip)

  unfoldable pub is_valid_ip : Text → Bool
  unfolding validate_ip
  is_valid_ip ip = elim (validate_ip ip) [ invalid ↦ false | _ ↦ true ]

  unfoldable pub get_ip_version : Text → ℕ
  unfolding validate_ip
  get_ip_version ip = elim (validate_ip ip) [ ipv4 ↦ 4 | ipv6 ↦ 6 | _ ↦ 0 ]
