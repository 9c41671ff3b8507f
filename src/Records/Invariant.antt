-- ===== src/Records/Invariant.antt =====
-- dnsrecords/dnsrecords.go: the operations on the record list and the keys of its records.
use dnsplane.Base.{
  ℕ, ◌≡◌, sym, ap, Bool, true, false, ◌||◌, List, [], ◌∷◌, Option, none, some, arith, Bool-cases,
  Option-cases, inl, inr, get_elem?, set, is_empty,
}
use dnsplane.Base.Unique.{
  has, find, has_of_find-none, find-get_elem?, Distinct-remove_at, Distinct-set_same,
  Distinct-set_new, Distinct-append,
}
use dnsplane.Text.{Text, trim_space}
use dnsplane.Library.{DnsLibrary}
use dnsplane.Cliutil.{is_help_request}
use dnsplane.Records.Types.{
  DnsRecord, Outcome, Checked, ok, bad, refused, message, Level, usage_add, invalid_args,
}
use dnsplane.Records.Find.{find_dns_record_index_by_id, find_dns_record_index}
use dnsplane.Records.Add.{
  Readings, replace_existing, report_existing, append_record, insert_new, add_at, record_at,
  prepared, add_record_internal, check_fields, cleaned, add_record, overwrite, is_other, update_at,
  update_found, update_record_by_id,
}
use dnsplane.Records.Args.{Parts, validate_ip_and_domain, add, parse_dns_record_args}
use dnsplane.Records.Remove.{
  remove_found, remove_parts, remove_by_name, Matched, absent, several, only, remove_args, remove,
  remove_record_by_id,
}
use dnsplane.Records.Keys.{
  same_key, key, KeysDistinct, same_key_flip, same_key→eq, find_dns_record_index_lem,
}

append_record-KeysDistinct :
    (r : DnsRecord) (rs : List DnsRecord)
    → has same_key key (key r) rs ≡ false
    → KeysDistinct rs
    → KeysDistinct (append_record r rs).records
unfolding append_record
append_record-KeysDistinct r rs h d = Distinct-append same_key key rs r same_key_flip h d

insert_new-KeysDistinct :
    (env : Readings) (r : DnsRecord) (rs : List DnsRecord)
    → has same_key key (key r) rs ≡ false
    → KeysDistinct rs
    → KeysDistinct (insert_new env r rs).records
unfolding insert_new
insert_new-KeysDistinct env r rs h d = elim (Bool-cases (is_empty (trim_space r.id))) [
  | inl e ↦ rw e (append_record-KeysDistinct (record r { id = env.new_id }) rs h d)
  | inr n ↦ rw n (elim (Option-cases (find_dns_record_index_by_id rs (trim_space r.id))) [
    | inl lacks ↦ rw lacks (append_record-KeysDistinct r rs h d)
    | inr (i, there) ↦ rw there d
  ])
]

-- A write at the index of the first record with the key.
replace_existing-KeysDistinct :
    (env : Readings) (old : DnsRecord) (i : ℕ) (r : DnsRecord) (rs : List DnsRecord)
    → get_elem? rs i ≡ some old
    → key r ≡ key old
    → KeysDistinct rs
    → KeysDistinct (replace_existing env old i r rs).records
unfolding replace_existing
replace_existing-KeysDistinct env old i r rs g e d = Distinct-set_same same_key key rs i old _ g e d

add_at-KeysDistinct :
    (env : Readings) (allow : Bool) (r : DnsRecord) (rs : List DnsRecord) (at : Option ℕ)
    → find same_key key (key r) rs ≡ at
    → KeysDistinct rs
    → KeysDistinct (add_at env allow r rs at (record_at rs at)).records
unfolding add_at
add_at-KeysDistinct env allow r rs none e d =
    insert_new-KeysDistinct env r rs (has_of_find-none same_key key (key r) rs e) d
add_at-KeysDistinct env true r rs (some i) e d =
    let (old, g, k) = find-get_elem? same_key key (key r) rs e in
    rw (g, add_at)
      (replace_existing-KeysDistinct env old i r rs g (sym (same_key→eq (key old) (key r) k)) d)
add_at-KeysDistinct env false r rs (some i) e d =
    let (old, g, k) = find-get_elem? same_key key (key r) rs e in
    rw (g, add_at) (unfold report_existing in d)

pub add_record_internal-KeysDistinct :
    (env : Readings) (r : DnsRecord) (rs : List DnsRecord) (allow : Bool)
    → KeysDistinct rs
    → KeysDistinct (add_record_internal env r rs allow).records
add_record_internal-KeysDistinct env r rs allow d =
    unfold add_record_internal in
    add_at-KeysDistinct env allow (prepared env r) rs _
      (sym (find_dns_record_index_lem rs (prepared env r))) d

remove_found-KeysDistinct :
    (rs : List DnsRecord) (i : ℕ) (at : Option DnsRecord)
    → KeysDistinct rs
    → KeysDistinct (remove_found rs i at).records
unfolding remove_found
remove_found-KeysDistinct rs i none d = d
remove_found-KeysDistinct rs i (some old) d = Distinct-remove_at same_key key rs i d

remove_parts-KeysDistinct :
    (rs : List DnsRecord) (p : Parts) (known : Option ℕ)
    → KeysDistinct rs
    → KeysDistinct (remove_parts rs p known).records
unfolding remove_parts
remove_parts-KeysDistinct rs p (some i) d =
    elim (Bool-cases (is_empty p.name || is_empty p.type || is_empty p.value)) [
      | inl e ↦ rw e d
      | inr n ↦ rw n (remove_found-KeysDistinct rs i (record_at rs (some i)) d)
    ]
remove_parts-KeysDistinct rs p none d =
    elim (Bool-cases (is_empty p.name || is_empty p.type || is_empty p.value)) [
      | inl e ↦ rw e d
      | inr n ↦ rw n (elim (Option-cases (find_dns_record_index rs p.name p.type p.value)) [
        | inl lacks ↦ rw lacks d
        | inr (i, there) ↦ rw there (remove_found-KeysDistinct rs i (record_at rs (some i)) d)
      ])
    ]

remove_by_name-KeysDistinct :
    (rs : List DnsRecord) (name : Text) (found : Matched)
    → KeysDistinct rs
    → KeysDistinct (remove_by_name rs name found).records
unfolding remove_by_name
remove_by_name-KeysDistinct rs name several d = d
remove_by_name-KeysDistinct rs name absent d =
    remove_parts-KeysDistinct rs (record { name = name; value = []; type = [] }) none d
remove_by_name-KeysDistinct rs name (only i r) d =
    remove_parts-KeysDistinct rs (record { name = name; value = r.value; type = r.type }) (some i) d

pub remove_record_by_id-KeysDistinct :
    (id : Text) (rs : List DnsRecord)
    → KeysDistinct rs
    → KeysDistinct (remove_record_by_id id rs).records
unfolding remove_record_by_id
remove_record_by_id-KeysDistinct id rs d = elim (Bool-cases (is_empty (trim_space id))) [
  | inl e ↦ rw e d
  | inr n ↦ rw n (elim (Option-cases (find_dns_record_index_by_id rs (trim_space id))) [
    | inl lacks ↦ rw lacks d
    | inr (i, there) ↦ rw there (remove_found-KeysDistinct rs i (record_at rs (some i)) d)
  ])
]

module _ (lib : DnsLibrary) where
  pub add_record-KeysDistinct :
      (env : Readings) (r : DnsRecord) (rs : List DnsRecord) (allow : Bool)
      → KeysDistinct rs
      → KeysDistinct (add_record lib env r rs allow).records
  unfolding add_record
  add_record-KeysDistinct env r rs allow d = elim (Option-cases (check_fields lib (cleaned r))) [
    | inl fine ↦ rw (fine, add_record) (add_record_internal-KeysDistinct env _ rs allow d)
    | inr (m, failed) ↦ rw (failed, add_record) d
  ]

  pub add-KeysDistinct :
      (env : Readings) (args : List Text) (rs : List DnsRecord) (allow : Bool)
      → KeysDistinct rs
      → KeysDistinct (add lib env args rs allow).records
  unfolding add
  add-KeysDistinct env args rs allow d = elim (Bool-cases (is_help_request args)) [
    | inl e ↦ rw e d
    | inr n ↦ rw n (by_parse (parse_dns_record_args lib args))
  ]
    where
      by_parse :
          (p : Checked DnsRecord)
          → KeysDistinct
              (elim p as (λ _. Outcome DnsRecord) [
                | bad w ↦ refused rs (message Level.error w ∷ usage_add) invalid_args
                | ok r ↦ add_record_internal env r rs allow
              ]).records
      by_parse (bad w) = d
      by_parse (ok r) = add_record_internal-KeysDistinct env r rs allow d

  -- Past the check that the new keys are no other record's.
  set-KeysDistinct :
      (rs : List DnsRecord) (i : ℕ) (old new : DnsRecord) (at : Option ℕ)
      → get_elem? rs i ≡ some old
      → find same_key key (key new) rs ≡ at
      → is_other at i ≡ false
      → KeysDistinct rs
      → KeysDistinct (set rs i new)
  set-KeysDistinct rs i old new none g e o d =
      Distinct-set_new same_key key rs i new same_key_flip
        (has_of_find-none same_key key (key new) rs e) d
  set-KeysDistinct rs i old new (some j) g e o d =
      let (found, h, k) = find-get_elem? same_key key (key new) rs e in
      let here : j ≡ i = ground arith in
      let same : found ≡ old = ground (arith, ap (get_elem? rs) here) in
      Distinct-set_same same_key key rs i old new g
        (sym (same_key→eq (key old) (key new) (rw (← same) k))) d

  update_at-KeysDistinct :
      (env : Readings) (id : Text) (r : DnsRecord) (rs : List DnsRecord) (i : ℕ) (old : DnsRecord)
      → get_elem? rs i ≡ some old
      → KeysDistinct rs
      → KeysDistinct (update_at lib env id r rs i old).records
  unfolding update_at
  update_at-KeysDistinct env id r rs i old g d =
      elim (Option-cases (check_fields lib (cleaned r))) [
        | inr (m, failed) ↦ rw (failed, update_at) d
        | inl fine ↦
            let new = cleaned r in
            let at = find_dns_record_index rs new.name new.type new.value in
            rw (fine, update_at)
              (elim (Bool-cases (is_other at i)) [
                | inl other ↦ rw other d
                | inr not_other ↦ rw not_other (
                    set-KeysDistinct rs i old (overwrite env id old new) at g
                      (unfold overwrite in sym (find_dns_record_index_lem rs new)) not_other d)
              ])
      ]

  pub update_record_by_id-KeysDistinct :
      (env : Readings) (id : Text) (r : DnsRecord) (rs : List DnsRecord)
      → KeysDistinct rs
      → KeysDistinct (update_record_by_id lib env id r rs).records
  unfolding update_record_by_id update_found
  update_record_by_id-KeysDistinct env id r rs d = elim (Bool-cases (is_empty (trim_space id))) [
    | inl e ↦ rw e d
    | inr n ↦ rw n (elim (Option-cases (find_dns_record_index_by_id rs (trim_space id))) [
      | inl lacks ↦ rw (lacks, update_found) d
      | inr (i, there) ↦ elim (Option-cases (get_elem? rs i)) [
        | inl out ↦ rw (there, out, update_found) d
        | inr (old, g) ↦
            rw (there, g, update_found) (update_at-KeysDistinct env (trim_space id) r rs i old g d)
      ]
    ])
  ]

  remove_args-KeysDistinct :
      (args : List Text) (rs : List DnsRecord)
      → KeysDistinct rs
      → KeysDistinct (remove_args lib args rs).records
  unfolding remove_args
  remove_args-KeysDistinct [] rs d = d
  remove_args-KeysDistinct (a ∷ []) rs d = elim (Bool-cases (is_empty (trim_space a))) [
    | inl e ↦ rw e d
    | inr n ↦ rw n (remove_by_name-KeysDistinct rs (trim_space a) _ d)
  ]
  remove_args-KeysDistinct (a ∷ b ∷ []) rs d =
      let p = validate_ip_and_domain lib a b in
      elim (Bool-cases (is_empty p.name || is_empty p.type)) [
        | inl e ↦ rw e d
        | inr n ↦ rw n (remove_parts-KeysDistinct rs p none d)
      ]
  remove_args-KeysDistinct (a ∷ b ∷ c ∷ []) rs d =
      remove_parts-KeysDistinct rs (record { name = trim_space a; value = c; type = b }) none d
  remove_args-KeysDistinct (_ ∷ _ ∷ _ ∷ _ ∷ _) rs d = d

  pub remove-KeysDistinct :
      (args : List Text) (rs : List DnsRecord)
      → KeysDistinct rs
      → KeysDistinct (remove lib args rs).records
  unfolding remove
  remove-KeysDistinct args rs d = elim (Bool-cases (is_help_request args)) [
    | inl e ↦ rw e d
    | inr n ↦ rw n (remove_args-KeysDistinct args rs d)
  ]
