-- ===== src/Servers/Commands.antt =====
-- Add, Remove, Update and List of dnsservers/dnsservers.go. The messages are those of the records'
-- operations, which have the same two fields.
use dnsplane.Base.{
  ℕ, ◌-◌, ◌^◌, Bool, true, false, ◌||◌, not, List, [], ◌∷◌, ◌++◌, Option, none, some, is_empty, any,
  filter, map, get_elem?, set, remove_at, index_of, leb, ◌==◌, if◌then◌else◌,
}
use dnsplane.Text.{Text, codes, text_eq, trim_space, to_lower, split, digits_value}
use dnsplane.Library.{DnsLibrary}
use dnsplane.Cliutil.{is_help_request}
use dnsplane.Records.Types.{
  info, warn, Level, Message, message, Wording, says, of_text, of_texts, help_requested,
  invalid_args, Outcome, done, refused, Checked, ok, bad,
}
use dnsplane.Servers.Types.{DnsServer, no_server}

help_hint : Message
help_hint =
    message info (says "Hint: append '?', 'help', or 'h' after the command to view this usage.")

unfoldable pub usage_add : List Message
unfolding help_hint
usage_add =
    message info (
      says
        "Usage  : add <Address> [Port] [active:true|false] [localresolver:true|false] [adblocker:true|false] [whitelist:suffix1,suffix2,...] [fallback_address:IP] [fallback_port:53] [fallback_transport:udp|tcp|dot|doh] [fallback_doh_url:https://...]")
    ∷ message info (says "Example: add 1.1.1.1 53")
    ∷ message info (
        says
          "Example: add 192.168.5.5 53 active:true localresolver:true adblocker:false whitelist:example.com,example.org")
    ∷ help_hint
    ∷ []

unfoldable pub usage_remove : List Message
unfolding help_hint
usage_remove =
    message info (says "Usage  : remove <Address>")
    ∷ message info (says "Example: remove 127.0.0.1")
    ∷ help_hint
    ∷ []

unfoldable pub usage_update : List Message
unfolding help_hint
usage_update =
    message info (
      says
        "Usage  : update <Address> [Port] [active:true|false] [localresolver:true|false] [adblocker:true|false] [whitelist:suffix1,suffix2,...] [fallback_address:IP] [fallback_port:53] ...")
    ∷ message info (says "Example: update 1.1.1.1 53 active:false")
    ∷ message info
        (says "Example: update 192.168.5.5 adblocker:true whitelist:example.com,example.org")
    ∷ help_hint
    ∷ []

-- strconv.ParseBool
unfoldable pub parse_bool : Text → Option Bool
parse_bool s =
    let is = λ (t : Text). text_eq s t in
    if is (codes "1")
      || is (codes "t")
      || is (codes "T")
      || is (codes "true")
      || is (codes "TRUE")
      || is (codes "True")
    then some true
    else if is (codes "0")
        || is (codes "f")
        || is (codes "F")
        || is (codes "false")
        || is (codes "FALSE")
        || is (codes "False")
    then some false
    else none

-- The digits behind the sign have a value of at most `most`.
within : ℕ → Text → Bool
within most [] = false
within most (c ∷ s) = elim (digits_value (c ∷ s)) [ none ↦ false | some n ↦ leb n most ]

-- strconv.Atoi gives no error: an optional sign, and digits of an int64.
unfoldable pub is_int : Text → Bool
unfolding within
is_int [] = false
is_int (c ∷ s) =
    if c == b'-'
    then within (2 ^ 63) s
    else if c == b'+'
    then within (2 ^ 63 - 1) s
    else within (2 ^ 63 - 1) (c ∷ s)

-- What stands before and behind the first colon.
unfoldable pub cut_colon : Text → Option (Text × Text)
cut_colon [] = none
cut_colon (c ∷ s) =
    let rest = cut_colon s in
    if c == b':' then some ([], s) else elim rest [ none ↦ none | some p ↦ some (c ∷ p.0, p.1) ]

-- The parts of a whitelist, trimmed, without the empty ones.
unfoldable pub parse_whitelist : Text → List Text
parse_whitelist v = filter (λ p. not (is_empty p)) (map trim_space (split b',' v))

-- A server with the field that the value is for, or the error where it is none.
unfoldable pub with_bool : Text → Wording → (Bool → DnsServer) → Checked DnsServer
with_bool v w f = elim (parse_bool v) [ none ↦ bad w | some b ↦ ok (f b) ]

unfoldable pub set_fallback_address : DnsServer → Text → DnsServer
set_fallback_address s [] = record s {
  fallback_address = [];
  fallback_port = [];
  fallback_transport = [];
  fallback_doh_url = [];
}
set_fallback_address s (c ∷ v) = record s { fallback_address = c ∷ v }

-- The `switch` on the key.
unfoldable pub apply_named : DnsServer → Text → Text → Checked DnsServer
unfolding with_bool set_fallback_address
apply_named s key v =
    let is = λ (t : Text). text_eq key t in
    if is (codes "active")
    then with_bool v (of_text "invalid active value: %s" v) (λ b. record s { active = b })
    else if is (codes "localresolver")
    then with_bool v (of_text "invalid localresolver value: %s" v)
        (λ b. record s { local_resolver = b })
    else if is (codes "adblocker")
    then with_bool v (of_text "invalid adblocker value: %s" v) (λ b. record s { ad_blocker = b })
    else if is (codes "whitelist")
    then ok (record s { domain_whitelist = if is_empty v then [] else parse_whitelist v })
    else if is (codes "transport")
    then ok (record s { transport = to_lower (trim_space v) })
    else if is (codes "doh_url")
    then ok (record s { doh_url = v })
    else if is (codes "fallback_address")
    then ok (set_fallback_address s v)
    else if is (codes "fallback_port")
    then ok (record s { fallback_port = v })
    else if is (codes "fallback_transport")
    then ok (record s { fallback_transport = to_lower (trim_space v) })
    else if is (codes "fallback_doh_url")
    then ok (record s { fallback_doh_url = v })
    else bad (
        of_text
          "unknown parameter %q; allowed: active, localresolver, adblocker, whitelist, transport, doh_url, fallback_address, fallback_port, fallback_transport, fallback_doh_url"
          key)

-- One argument of the loop: `idx <= 0` is an error.
unfoldable pub apply_arg : DnsServer → Text → Checked DnsServer
apply_arg s arg = elim (cut_colon arg) [
  | some (c ∷ k, v) ↦ apply_named s (to_lower (trim_space (c ∷ k))) (trim_space v)
  | _ ↦ bad (
      of_text
        "unexpected argument %q; use named parameters (e.g. active:true whitelist:example.com)" arg)
]

unfoldable pub apply_rest : DnsServer → List Text → Checked DnsServer
apply_rest s [] = ok s
apply_rest s (arg ∷ args) = elim (apply_arg s arg) [ bad w ↦ bad w | ok t ↦ apply_rest t args ]

unfoldable pub has_colon : Text → Bool
has_colon s = any (λ c. c == b':') s

-- The optional port, and then the named arguments.
unfoldable pub apply_port : DnsServer → List Text → Checked DnsServer
unfolding has_colon
apply_port s [] = ok s
apply_port s (arg ∷ args) =
    if has_colon arg
    then apply_rest s (arg ∷ args)
    else if is_int arg
    then apply_rest (record s { port = arg }) args
    else bad (of_text "invalid port: %s" arg)

unfoldable pub find_dns_server_index : List DnsServer → Text → Option ℕ
find_dns_server_index rows address = index_of (λ s. text_eq s.address address) rows

-- dnsServers[index], where -1 stands for no index
abbrev pub row_at : List DnsServer → Option ℕ → Option DnsServer
row_at rows none = none
row_at rows (some i) = get_elem? rows i

module _ (lib : DnsLibrary) where
  unfoldable pub apply_args_to_dns_server : DnsServer → List Text → Checked DnsServer
  apply_args_to_dns_server s [] = bad (says "address is required")
  apply_args_to_dns_server s (address ∷ rest) =
      if lib.parse_ip address
      then apply_port (record s { address = address }) rest
      else bad (of_text "invalid IP address: %s" address)

  unfoldable pub add_checked : List DnsServer → Checked DnsServer → Outcome DnsServer
  add_checked rows (bad w) = refused rows (message Level.error w ∷ usage_add) invalid_args
  add_checked rows (ok s) =
      done (rows ++ s ∷ [])
        (message info (of_texts "Added DNS server: %s:%s" (s.address ∷ s.port ∷ [])) ∷ [])

  unfoldable pub add : List Text → List DnsServer → Outcome DnsServer
  unfolding add_checked
  add args rows =
      if is_help_request args
      then refused rows usage_add help_requested
      else add_checked rows (
          apply_args_to_dns_server
            (record no_server { port = codes "53"; active = true; local_resolver = true }) args)

  unfoldable pub update_checked : List DnsServer → ℕ → Text → Checked DnsServer → Outcome DnsServer
  update_checked rows i address (bad w) =
      refused rows (message Level.error w ∷ usage_update) invalid_args
  update_checked rows i address (ok s) =
      done (set rows i s) (message info (of_text "Updated DNS server: %s" address) ∷ [])

  unfoldable pub update_found :
      List DnsServer → List Text → Text → Option ℕ → Option DnsServer → Outcome DnsServer
  unfolding update_checked
  update_found rows args address (some i) (some s) =
      update_checked rows i address (apply_args_to_dns_server s args)
  update_found rows args address _ _ =
      refused rows (message warn (of_text "DNS server not found: %s" address) ∷ usage_update)
        invalid_args

  unfoldable pub update : List Text → List DnsServer → Outcome DnsServer
  unfolding update_found
  update [] rows =
      refused rows (message Level.error (says "address is required.") ∷ usage_update) invalid_args
  update (address ∷ args) rows =
      let i = find_dns_server_index rows address in
      if is_help_request (address ∷ args)
      then refused rows usage_update help_requested
      else update_found rows (address ∷ args) address i (row_at rows i)

unfoldable pub remove_at_index : List DnsServer → Text → Option ℕ → Outcome DnsServer
remove_at_index rows address none =
    refused rows
      (message warn (of_text "No DNS server found with the address: %s" address) ∷ usage_remove)
      invalid_args
remove_at_index rows address (some i) =
    done (remove_at rows i) (message info (of_text "Removed DNS server: %s" address) ∷ [])

unfoldable pub remove_args : List Text → List DnsServer → Outcome DnsServer
unfolding remove_at_index
remove_args (address ∷ []) rows = remove_at_index rows address (find_dns_server_index rows address)
remove_args _ rows =
    refused rows (message Level.error (says "address is required") ∷ usage_remove) invalid_args

unfoldable pub remove : List Text → List DnsServer → Outcome DnsServer
unfolding remove_args
remove args rows =
    if is_help_request args then refused rows usage_remove help_requested else remove_args args rows

-- The messages of List, which gives the rows as they are.
unfoldable pub list_messages : List DnsServer → List Message
list_messages rows = if is_empty rows then message info (says "No DNS servers found.") ∷ [] else []
