-- ===== src/Servers/Rows.antt =====
-- dnsservers/dnsservers.go: what the commands do to the rows.
use dnsplane.Base.{
  ℕ, zero, suc, ◌≡◌, refl, ◌≢◌, Bool, true, false, List, [], ◌∷◌, ◌++◌, Option, none, some, arith,
  all, set, remove_at, Bool-cases, Option-cases, inl, inr, ◌⊎◌, if◌then◌else◌,
}
use dnsplane.Text.{Text}
use dnsplane.Library.{DnsLibrary}
use dnsplane.Cliutil.{is_help_request}
use dnsplane.Records.Types.{Outcome, Checked, ok, bad, Wording}
use dnsplane.Servers.Types.{DnsServer}
use dnsplane.Servers.Commands.{
  parse_bool, apply_named, apply_arg, apply_rest, apply_port, cut_colon, is_int, has_colon,
  with_bool, set_fallback_address, apply_args_to_dns_server, add, add_checked, update,
  update_checked, update_found, remove, remove_args, remove_at_index,
}

-- The server, if there is one, has the address.
abbrev HasAddress : Text → Checked DnsServer → Type 0
HasAddress a (bad w) = Unit {0}
HasAddress a (ok s) = s.address ≡ a

with_bool-HasAddress :
    (a v : Text) (w : Wording) (f : Bool → DnsServer)
    → ((b : Bool) → (f b).address ≡ a)
    → HasAddress a (with_bool v w f)
unfolding with_bool
with_bool-HasAddress a v w f h = elim (Option-cases (parse_bool v)) [
  | inl e ↦ rw (e, HasAddress) tt
  | inr (b, e) ↦ rw (e, HasAddress) (h b)
]

set_fallback_address-address :
    (s : DnsServer) (v : Text) → (set_fallback_address s v).address ≡ s.address
unfolding set_fallback_address
set_fallback_address-address s [] = refl
set_fallback_address-address s (c ∷ v) = refl

if-HasAddress :
    (a : Text) (b : Bool) (x y : Checked DnsServer)
    → HasAddress a x
    → HasAddress a y
    → HasAddress a (if b then x else y)
if-HasAddress a true x y h k = h
if-HasAddress a false x y h k = k

apply_named-HasAddress : (s : DnsServer) (key v : Text) → HasAddress s.address (apply_named s key v)
unfolding apply_named
apply_named-HasAddress s key v =
    search (if-HasAddress, with_bool-HasAddress, set_fallback_address-address) depth 30

apply_arg-HasAddress : (s : DnsServer) (arg : Text) → HasAddress s.address (apply_arg s arg)
unfolding apply_arg
apply_arg-HasAddress s arg = by_cut (cut_colon arg) refl
  where
    by_cut : (o : Option (Text × Text)) → cut_colon arg ≡ o → HasAddress s.address (apply_arg s arg)
    by_cut none e = rw (e, HasAddress) tt
    by_cut (some ([], v)) e = rw (e, HasAddress) tt
    by_cut (some (c ∷ k, v)) e = rw (e, HasAddress) (apply_named-HasAddress s _ _)

apply_rest-HasAddress :
    (s : DnsServer) (args : List Text) → HasAddress s.address (apply_rest s args)
unfolding apply_rest
apply_rest-HasAddress s [] = refl
apply_rest-HasAddress s (arg ∷ args) =
    with_rest (apply_arg s arg) (apply_arg-HasAddress s arg) (λ t. apply_rest-HasAddress t args)
  where
    with_rest :
        (c : Checked DnsServer)
        → HasAddress s.address c
        → ((t : DnsServer) → HasAddress t.address (apply_rest t args))
        → HasAddress s.address
            (elim c as (λ _. Checked DnsServer) [ bad w ↦ bad w | ok t ↦ apply_rest t args ])
    with_rest (bad w) h k = tt
    with_rest (ok t) h k = rw (← h) (k t)

apply_port-HasAddress :
    (s : DnsServer) (args : List Text) → HasAddress s.address (apply_port s args)
unfolding apply_port
apply_port-HasAddress s [] = refl
apply_port-HasAddress s (arg ∷ args) =
    if-HasAddress s.address (has_colon arg) _ _ (apply_rest-HasAddress s (arg ∷ args)) (
      if-HasAddress s.address (is_int arg) _ _
        (apply_rest-HasAddress (record s { port = arg }) args) tt)

module _ (lib : DnsLibrary) where
  apply_args_to_dns_server-HasAddress :
      (s : DnsServer) (address : Text) (args : List Text)
      → HasAddress address (apply_args_to_dns_server lib s (address ∷ args))
  unfolding apply_args_to_dns_server
  apply_args_to_dns_server-HasAddress s address args =
      if-HasAddress address (lib.parse_ip address) _ _
        (apply_port-HasAddress (record s { address = address }) args) tt

  -- A server that the arguments make has an address that parses.
  abbrev IsParsed : Checked DnsServer → Type 0
  IsParsed (bad w) = Unit {0}
  IsParsed (ok s) = lib.parse_ip s.address ≡ true

  IsParsed-of_address :
      (a : Text) (c : Checked DnsServer) → HasAddress a c → lib.parse_ip a ≡ true → IsParsed c
  IsParsed-of_address a (bad w) h p = tt
  IsParsed-of_address a (ok s) h p = rw h p

  apply_args_to_dns_server-IsParsed :
      (s : DnsServer) (args : List Text) → IsParsed (apply_args_to_dns_server lib s args)
  unfolding apply_args_to_dns_server
  apply_args_to_dns_server-IsParsed s [] = tt
  apply_args_to_dns_server-IsParsed s (address ∷ args) = elim (Bool-cases (lib.parse_ip address)) [
    | inl e ↦
        rw (e, IsParsed)
          (IsParsed-of_address address _
            (apply_port-HasAddress (record s { address = address }) args) e)
    | inr n ↦ rw (n, IsParsed) tt
  ]

  -- Every row has an address that parses.
  abbrev pub all_parsed : List DnsServer → Bool
  all_parsed rows = all (λ s. lib.parse_ip s.address) rows

  all_parsed-append :
      (rows : List DnsServer) (s : DnsServer)
      → all_parsed rows ≡ true
      → lib.parse_ip s.address ≡ true
      → all_parsed (rows ++ s ∷ []) ≡ true
  all_parsed-append [] s h p = ground arith
  all_parsed-append (r ∷ rows) s h p = ground (arith, all_parsed-append rows s)

  all_parsed-set :
      (rows : List DnsServer) (i : ℕ) (s : DnsServer)
      → all_parsed rows ≡ true
      → lib.parse_ip s.address ≡ true
      → all_parsed (set rows i s) ≡ true
  all_parsed-set [] i s h p = refl
  all_parsed-set (r ∷ rows) zero s h p = ground arith
  all_parsed-set (r ∷ rows) (suc i) s h p = ground (arith, all_parsed-set rows i s)

  all_parsed-remove_at :
      (rows : List DnsServer) (i : ℕ)
      → all_parsed rows ≡ true
      → all_parsed (remove_at rows i) ≡ true
  all_parsed-remove_at [] i h = refl
  all_parsed-remove_at (r ∷ rows) zero h = ground arith
  all_parsed-remove_at (r ∷ rows) (suc i) h = ground (arith, all_parsed-remove_at rows i)

  -- A call of a command.
  pub data Command : Type 0 where
    command_add command_remove command_update : List Text → Command

  unfoldable pub apply : Command → List DnsServer → Outcome DnsServer
  apply (command_add args) rows = add lib args rows
  apply (command_remove args) rows = remove args rows
  apply (command_update args) rows = update lib args rows

  unfoldable pub run : List Command → List DnsServer → List DnsServer
  run [] rows = rows
  run (c ∷ cs) rows = run cs (apply c rows).records

  -- What holds of the outcome of a command on rows.
  abbrev Keeps : List DnsServer → Outcome DnsServer → Type 0
  Keeps rows o =
      (all_parsed rows ≡ true → all_parsed o.records ≡ true)
      × ((o.error ≡ none) ⊎ (o.records ≡ rows))

  add_checked-Keeps :
      (rows : List DnsServer) (c : Checked DnsServer)
      → IsParsed c
      → Keeps rows (add_checked lib rows c)
  unfolding add_checked
  add_checked-Keeps rows (bad w) p = (λ h. h, inr refl)
  add_checked-Keeps rows (ok s) p = (λ h. all_parsed-append rows s h p, inl refl)

  update_checked-Keeps :
      (rows : List DnsServer) (i : ℕ) (address : Text) (c : Checked DnsServer)
      → IsParsed c
      → Keeps rows (update_checked lib rows i address c)
  unfolding update_checked
  update_checked-Keeps rows i address (bad w) p = (λ h. h, inr refl)
  update_checked-Keeps rows i address (ok s) p = (λ h. all_parsed-set rows i s h p, inl refl)

  update_found-Keeps :
      (rows : List DnsServer) (args : List Text) (address : Text) (i : Option ℕ)
      (at : Option DnsServer)
      → Keeps rows (update_found lib rows args address i at)
  unfolding update_found
  update_found-Keeps rows args address none at = (λ h. h, inr refl)
  update_found-Keeps rows args address (some i) none = (λ h. h, inr refl)
  update_found-Keeps rows args address (some i) (some s) =
      update_checked-Keeps rows i address _ (apply_args_to_dns_server-IsParsed s args)

  remove_at_index-Keeps :
      (rows : List DnsServer) (address : Text) (i : Option ℕ)
      → Keeps rows (remove_at_index rows address i)
  unfolding remove_at_index
  remove_at_index-Keeps rows address none = (λ h. h, inr refl)
  remove_at_index-Keeps rows address (some i) = (λ h. all_parsed-remove_at rows i h, inl refl)

  remove_args-Keeps :
      (args : List Text) (rows : List DnsServer) → Keeps rows (remove_args args rows)
  unfolding remove_args
  remove_args-Keeps [] rows = (λ h. h, inr refl)
  remove_args-Keeps (address ∷ []) rows = remove_at_index-Keeps rows address _
  remove_args-Keeps (_ ∷ _ ∷ _) rows = (λ h. h, inr refl)

  if-Keeps :
      (rows : List DnsServer) (b : Bool) (x y : Outcome DnsServer)
      → Keeps rows x
      → Keeps rows y
      → Keeps rows (if b then x else y)
  if-Keeps rows true x y h k = h
  if-Keeps rows false x y h k = k

  apply-Keeps : (c : Command) (rows : List DnsServer) → Keeps rows (apply c rows)
  unfolding apply add remove update
  apply-Keeps (command_add args) rows =
      if-Keeps rows (is_help_request args) _ _ (λ h. h, inr refl)
        (add_checked-Keeps rows _ (apply_args_to_dns_server-IsParsed _ args))
  apply-Keeps (command_remove args) rows =
      if-Keeps rows (is_help_request args) _ _ (λ h. h, inr refl) (remove_args-Keeps args rows)
  apply-Keeps (command_update []) rows = (λ h. h, inr refl)
  apply-Keeps (command_update (address ∷ args)) rows =
      if-Keeps rows (is_help_request (address ∷ args)) _ _ (λ h. h, inr refl)
        (update_found-Keeps rows (address ∷ args) address _ _)

  -- A command add, remove or update on the servers that gives an error leaves the rows as they
  -- are.
  pub refused-apply :
      (c : Command) (rows : List DnsServer)
      → (apply c rows).error ≢ none
      → (apply c rows).records ≡ rows
  refused-apply c rows e = elim ((apply-Keeps c rows).1) [
    | inl fine ↦ absurd (e fine)
    | inr same ↦ same
  ]

  run-parsed_from :
      (cs : List Command) (rows : List DnsServer)
      → all_parsed rows ≡ true
      → all_parsed (run cs rows) ≡ true
  unfolding run
  run-parsed_from [] rows h = h
  run-parsed_from (c ∷ cs) rows h = run-parsed_from cs _ ((apply-Keeps c rows).0 h)

  -- Whatever commands add, remove and update are run from no rows, every row has an address that
  -- parses as an IP address.
  run-all_parsed : (cs : List Command) → all_parsed (run cs []) ≡ true
  run-all_parsed cs = run-parsed_from cs [] refl
