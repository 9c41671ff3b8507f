-- ===== src/Converters.antt =====
-- converters/converters.go: an IPv4 address and its name under in-addr.arpa.
use dnsplane.Base.{◌≡◌, refl, not, [], ◌∷◌, ◌++◌, ltb, ◌==◌, length, take, if◌then◌else◌, reverse}
use mathlib.Core.List.{append_assoc}
use dnsplane.Text.{Text, codes, dot, split, join}
use dnsplane.Text.Split.{Avoids, split-append, split_avoiding}

abbrev arpa : Text
arpa = codes ".in-addr.arpa"

unfoldable pub convert_ip_to_reverse_dns : Text → Text
convert_ip_to_reverse_dns ip =
    let parts = split dot ip in
    if not (length parts == 4) then codes "Invalid IP address" else join dot (reverse parts) ++ arpa

unfoldable pub convert_reverse_dns_to_ip : Text → Text
convert_reverse_dns_to_ip reverse_dns =
    let parts = split dot reverse_dns in
    if ltb (length parts) 6 then codes "Invalid input" else join dot (reverse (take 4 parts))

-- The parts of an address, between dots.
abbrev pub dotted : Text → Text → Text → Text → Text
dotted a b c d = a ++ dot ∷ (b ++ dot ∷ (c ++ dot ∷ d))

module _ (a b c d : Text) (ha : Avoids dot a) (hb : Avoids dot b) (hc : Avoids dot c)
    (hd : Avoids dot d) where
  split-dotted :
      (rest : Text) → split dot (dotted a b c (d ++ dot ∷ rest)) ≡ a ∷ b ∷ c ∷ d ∷ split dot rest
  split-dotted rest = rw (
    split-append dot a (b ++ dot ∷ (c ++ dot ∷ (d ++ dot ∷ rest))) ha,
    split-append dot b (c ++ dot ∷ (d ++ dot ∷ rest)) hb,
    split-append dot c (d ++ dot ∷ rest) hc,
    split-append dot d rest hd,
  )

  split_four : split dot (dotted a b c d) ≡ a ∷ b ∷ c ∷ d ∷ []
  split_four = rw (
    split-append dot a (b ++ dot ∷ (c ++ dot ∷ d)) ha,
    split-append dot b (c ++ dot ∷ d) hb,
    split-append dot c d hc,
    split_avoiding dot d hd,
  )

-- in-addr and arpa
abbrev in_addr : Text
in_addr = codes "in-addr.arpa"

dotted-append : (a b c d e : Text) → dotted a b c d ++ e ≡ dotted a b c (d ++ e)
dotted-append a b c d e = simp append_assoc

module _ (a b c d : Text) (ha : Avoids dot a) (hb : Avoids dot b) (hc : Avoids dot c)
    (hd : Avoids dot d) where
  -- The name under in-addr.arpa of an address has its four parts in the reverse order.
  pub convert_ip_to_reverse_dns-dotted :
      convert_ip_to_reverse_dns (dotted a b c d) ≡ dotted d c b (a ++ dot ∷ in_addr)
  unfolding convert_ip_to_reverse_dns join
  convert_ip_to_reverse_dns-dotted =
      rw (split_four a b c d ha hb hc hd) (dotted-append d c b a arpa)

  -- An address of four parts without dots comes back from its name under in-addr.arpa.
  pub convert_reverse_dns_to_ip-convert_ip_to_reverse_dns :
      convert_reverse_dns_to_ip (convert_ip_to_reverse_dns (dotted a b c d)) ≡ dotted a b c d
  unfolding convert_reverse_dns_to_ip join
  convert_reverse_dns_to_ip-convert_ip_to_reverse_dns =
      rw (convert_ip_to_reverse_dns-dotted, split-dotted d c b a hd hc hb ha in_addr)
        (unfold split in refl)
