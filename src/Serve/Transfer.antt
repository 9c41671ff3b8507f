-- ===== src/Serve/Transfer.antt =====
-- dnsserve/axfr.go. sort.Slice is a sort that leaves records that compare equal in their order, as
-- Go's is on short slices.
use dnsplane.Base.{
  Bool, true, false, ◌&&◌, ◌||◌, not, List, [], ◌∷◌, ◌++◌, Option, none, some, is_empty, any,
  filter, ◌==◌, if◌then◌else◌,
}
use dnsplane.Text.{Text, codes, text_eq, text_lt, trim_space, to_upper, decimal}
use dnsplane.Library.{RrLibrary}
use dnsplane.Records.Types.{DnsRecord}
use dnsplane.Records.Normalize.{normalize_record_name_key, normalize_record_type}
use dnsplane.Dnssec.Validate.{collect, equal_fold}
use dnsplane.Resolver.Race.{Msg}
use dnsplane.Resolver.Caching.{Question}
use dnsplane.Serve.{
  Request, ServeLibrary, Settings, opcode_query, rcode_not_implemented, rcode_refused, reply_with,
}

unfoldable pub is_soa : DnsRecord → Bool
is_soa r = equal_fold (trim_space r.type) (codes "SOA")

unfoldable pub find_soa : List DnsRecord → Option DnsRecord
find_soa [] = none
find_soa (r ∷ rs) = if is_soa r then some r else find_soa rs

sort_key : DnsRecord → Text
sort_key r = normalize_record_name_key r.name ++ codes "|" ++ normalize_record_type r.type

-- The order of sort.Slice
less : DnsRecord → DnsRecord → Bool
unfolding sort_key
less a b =
    if not (text_eq (sort_key a) (sort_key b))
    then text_lt (sort_key a) (sort_key b)
    else text_lt a.value b.value

unfoldable pub insert : DnsRecord → List DnsRecord → List DnsRecord
unfolding less
insert r [] = r ∷ []
insert r (s ∷ rs) = let rest = insert r rs in if less s r then s ∷ rest else r ∷ s ∷ rs

unfoldable pub sort_records : List DnsRecord → List DnsRecord
unfolding insert
sort_records [] = []
sort_records (r ∷ rs) = insert r (sort_records rs)

unfoldable pub others : List DnsRecord → List DnsRecord
unfolding sort_records
others recs = sort_records (filter (λ r. not (is_soa r)) recs)

-- strings.SplitN(s, " ", 2) where it gives two parts
cut_space : Text → Option (Text × Text)
cut_space [] = none
cut_space (c ∷ s) =
    let rest = cut_space s in
    if c == 32
    then some ([], s)
    else elim rest as (λ _. Option (Text × Text)) [ none ↦ none | some p ↦ some (c ∷ p.0, p.1) ]

module _ (lib : RrLibrary) (net : ServeLibrary lib) where
  open lib use {Rr, new_rr}
  open net use {Net, Addr, parse_ip, parse_cidr, net_contains, canonical_name, is_sub_domain}

  onto_nets : Option Net → Option (List Net) → Option (List Net)
  onto_nets none rest = none
  onto_nets (some n) none = none
  onto_nets (some n) (some ns) = some (n ∷ ns)

  unfoldable pub parse_cidrs : List Text → Option (List Net)
  unfolding onto_nets
  parse_cidrs [] = some []
  parse_cidrs (s ∷ ss) =
      let rest = parse_cidrs ss in
      if is_empty (trim_space s) then rest else onto_nets (parse_cidr (trim_space s)) rest

  unfoldable pub in_nets : Option Addr → List Net → Bool
  in_nets none nets = false
  in_nets (some addr) nets = any (λ n. net_contains n addr) nets

  unfoldable pub client_ip_allowed : Text → List Net → Bool
  unfolding in_nets
  client_ip_allowed ip nets =
      let trimmed = trim_space ip in
      if is_empty trimmed || text_eq trimmed (codes "unknown")
      then false
      else in_nets (parse_ip trimmed) nets

  mx_value : Option (Text × Text) → Text → Text
  mx_value none val = val
  mx_value (some (pref, host)) val =
      trim_space pref ++ codes " " ++ canonical_name (trim_space host)

  -- The `switch` on the type.
  record_value : Text → Text → Text
  unfolding mx_value cut_space
  record_value typ val =
      if text_eq typ (codes "NS") || text_eq typ (codes "CNAME") || text_eq typ (codes "PTR")
      then (if is_empty val then val else canonical_name val)
      else if text_eq typ (codes "MX")
      then mx_value (cut_space val) val
      else val

  unfoldable pub dns_record_to_rr : DnsRecord → Option Rr
  unfolding record_value
  dns_record_to_rr rec =
      let name = trim_space rec.name in
      let ttl = if rec.ttl == 0 then 3600 else rec.ttl in
      let typ = to_upper (trim_space rec.type) in
      if is_empty name
      then none
      else new_rr (
          canonical_name name
          ++ codes " "
          ++ decimal ttl
          ++ codes " IN "
          ++ typ
          ++ codes " "
          ++ record_value typ (trim_space rec.value))

  unfoldable pub in_zone : Text → DnsRecord → Bool
  in_zone zone r = is_sub_domain zone (canonical_name r.name)

  -- The records between the two of the SOA; `none` where the SOA is no record of the DNS library.
  unfoldable pub between : Option Rr → List Rr → Option (List Rr)
  between none rrs = none
  between (some soa) rrs = some (soa ∷ rrs ++ soa ∷ [])

  unfoldable pub zone_records : Option DnsRecord → List DnsRecord → Option (List Rr)
  unfolding between others
  zone_records none recs = none
  zone_records (some soa) recs =
      between (dns_record_to_rr soa) (collect dns_record_to_rr (others recs))

  unfoldable pub axfr_records_for_zone : List DnsRecord → Text → Option (List Rr)
  unfolding zone_records
  axfr_records_for_zone recs zone =
      let here = filter (in_zone zone) recs in zone_records (find_soa here) here

  transfer_reply : Option (List Rr) → Msg Rr
  transfer_reply none = reply_with rcode_refused
  transfer_reply (some rrs) = record (reply_with 0) { authoritative = true; answer = rrs }

  abbrev allowed_by : Text → Option (List Net) → Bool
  allowed_by ip none = false
  allowed_by ip (some nets) = not (is_empty nets) && client_ip_allowed ip nets

  -- The reply to a zone transfer's question.
  unfoldable pub transfer : Settings → Text → Text → List DnsRecord → Question → Msg Rr
  unfolding transfer_reply
  transfer st ip proto recs q =
      let p = trim_space proto in
      if not (text_eq p (codes "tcp")) && not (text_eq p (codes "dot"))
      then reply_with rcode_not_implemented
      else if not st.axfr_enabled
      then reply_with rcode_refused
      else if not (allowed_by ip (parse_cidrs st.axfr_allowed_networks))
      then reply_with rcode_refused
      else transfer_reply (axfr_records_for_zone recs (canonical_name q.name))

  transfer_of : Settings → Text → Text → List DnsRecord → List Question → Option (Msg Rr)
  transfer_of st ip proto recs (q ∷ []) =
      if text_eq q.type (codes "AXFR") then some (transfer st ip proto recs q) else none
  transfer_of st ip proto recs _ = none

  -- `none` where the request is not one for a zone transfer
  unfoldable pub try_serve_axfr :
      Settings → Text → Text → List DnsRecord → Request → Option (Msg Rr)
  unfolding transfer_of
  try_serve_axfr st ip proto recs req =
      if not (req.opcode == opcode_query) then none else transfer_of st ip proto recs req.questions
