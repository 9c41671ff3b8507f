-- ===== src/Records/Args.antt =====
-- Add and the reading of its arguments in dnsrecords/dnsrecords.go.
use dnsplane.Base.{
  ℕ, Bool, ◌&&◌, ◌||◌, not, List, [], ◌∷◌, none, some, is_empty, ◌==◌, if◌then◌else◌,
}
use dnsplane.Text.{Text, codes, to_upper, trim_space, parse_uint32}
use dnsplane.Library.{DnsLibrary}
use dnsplane.Cliutil.{is_help_request}
use dnsplane.IpValidator.{is_valid_ip, get_ip_version}
use dnsplane.Records.Types.{
  DnsRecord, no_record, Level, message, says, of_text, help_requested, invalid_args, Outcome,
  refused, Checked, ok, bad, usage_add,
}
use dnsplane.Records.Normalize.{normalize_record_type}
use dnsplane.Records.Add.{Readings, validate_record_value, add_record_internal}

-- A name, a value and a type, each empty where the source has "".
pub record Parts : Type 0 where
  pub name : Text
  pub value : Text
  pub type : Text

unfoldable pub ipv_to_record_type : ℕ → Text
ipv_to_record_type version =
    if version == 4 then codes "A" else if version == 6 then codes "AAAA" else []

bad_format : Checked DnsRecord
bad_format = bad (
    says
      "invalid DNS record format. Please enter the DNS record in the format: <Name> [Type] <Value> [TTL]")

module _ (lib : DnsLibrary) where
  -- the address `ip` for the domain `domain`
  parts_of : Text → Text → Parts
  parts_of domain ip = record {
    name = trim_space domain;
    value = trim_space ip;
    type = ipv_to_record_type (get_ip_version lib ip);
  }

  unfoldable pub validate_ip_and_domain : Text → Text → Parts
  unfolding parts_of ipv_to_record_type
  validate_ip_and_domain a b =
      if is_valid_ip lib a && lib.is_domain_name b
      then parts_of b a
      else if is_valid_ip lib b && lib.is_domain_name a
      then parts_of a b
      else record { name = []; value = []; type = [] }

  -- parseDNSRecordArgs past the switch on the number of arguments
  finish_parse : Parts → Text → Checked DnsRecord
  finish_parse p ttl_text =
      let name = trim_space p.name in
      let value = trim_space p.value in
      let type = normalize_record_type p.type in
      if not (lib.string_to_type type)
      then bad (of_text "invalid DNS record type: %s" type)
      else elim (validate_record_value lib type value) [
        | some w ↦ bad w
        | none ↦ elim (parse_uint32 ttl_text) [
          | none ↦ bad (of_text "invalid TTL value: %s" ttl_text)
          | some ttl ↦ ok (record no_record { name = name; type = type; value = value; ttl = ttl })
        ]
      ]

  unfoldable pub parse_dns_record_args : List Text → Checked DnsRecord
  unfolding finish_parse validate_ip_and_domain bad_format
  parse_dns_record_args [] = bad_format
  parse_dns_record_args (_ ∷ []) = bad_format
  parse_dns_record_args (a ∷ b ∷ []) =
      let p = validate_ip_and_domain a b in
      if is_empty p.name || is_empty p.type || is_empty p.value
      then bad_format
      else finish_parse p (codes "3600")
  parse_dns_record_args (a ∷ b ∷ c ∷ []) =
      finish_parse (record { name = a; value = c; type = to_upper b }) (codes "3600")
  parse_dns_record_args (a ∷ b ∷ c ∷ d ∷ []) =
      finish_parse (record { name = a; value = c; type = to_upper b }) d
  parse_dns_record_args (_ ∷ _ ∷ _ ∷ _ ∷ _ ∷ _) = bad_format

  unfoldable pub add : Readings → List Text → List DnsRecord → Bool → Outcome DnsRecord
  add env full_command rs allow_update =
      if is_help_request full_command
      then refused rs usage_add help_requested
      else elim (parse_dns_record_args full_command) [
        | bad w ↦ refused rs (message Level.error w ∷ usage_add) invalid_args
        | ok r ↦ add_record_internal env r rs allow_update
      ]
