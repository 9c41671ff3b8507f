-- ===== src/Records/Found.antt =====
-- dnsrecords/dnsrecords.go: what the searches find after AddRecord.
use dnsplane.Base.{
  ℕ, ◌≡◌, sym, Bool, true, false, List, [], ◌∷◌, Option, none, some, arith, any-append, is_empty,
  Bool-cases, Option-cases, inl, inr,
}
use dnsplane.Base.Unique.{has, find, find-get_elem?, has-set_self, has_of_find}
use dnsplane.Text.{trim_space}
use dnsplane.Library.{DnsLibrary}
use dnsplane.Records.Types.{DnsRecord, Outcome}
use dnsplane.Records.Find.{find_dns_record_index_by_id}
use dnsplane.Records.Add.{
  Readings, replace_existing, report_existing, append_record, insert_new, add_at, record_at,
  prepared, add_record_internal, cleaned, check_fields, add_record,
}
use dnsplane.Records.Keys.{Key, same_key, key, same_key_refl, find_dns_record_index_lem}

-- If the outcome is no error, some record has the key.
abbrev pub Found : Key → Outcome DnsRecord → Type 0
Found k o = o.error ≡ none → has same_key key k o.records ≡ true

append_record-has :
    (r : DnsRecord) (rs : List DnsRecord)
    → has same_key key (key r) (append_record r rs).records ≡ true
unfolding append_record
append_record-has r rs =
    ground (arith, any-append (λ x. same_key (key x) (key r)) rs (r ∷ []), same_key_refl (key r))

insert_new-has :
    (env : Readings) (r : DnsRecord) (rs : List DnsRecord) → Found (key r) (insert_new env r rs)
unfolding insert_new
insert_new-has env r rs = elim (Bool-cases (is_empty (trim_space r.id))) [
  | inl e ↦ rw (e, insert_new) (λ h. append_record-has (record r { id = env.new_id }) rs)
  | inr n ↦ elim (Option-cases (find_dns_record_index_by_id rs (trim_space r.id))) [
    | inl lacks ↦ rw (n, lacks, insert_new) (λ h. append_record-has r rs)
    | inr (i, there) ↦ rw (n, there, insert_new) (λ h. absurd (ground arith))
  ]
]

add_at-has :
    (env : Readings) (allow : Bool) (r : DnsRecord) (rs : List DnsRecord) (at : Option ℕ)
    → find same_key key (key r) rs ≡ at
    → Found (key r) (add_at env allow r rs at (record_at rs at))
unfolding add_at
add_at-has env allow r rs none e = insert_new-has env r rs
add_at-has env true r rs (some i) e =
    let (old, g, k) = find-get_elem? same_key key (key r) rs e in
    rw (g, add_at)
      (unfold replace_existing in λ h. has-set_self same_key key rs i old _ same_key_refl g)
add_at-has env false r rs (some i) e =
    let (old, g, k) = find-get_elem? same_key key (key r) rs e in
    rw (g, add_at) (unfold report_existing in λ h. has_of_find same_key key (key r) rs e)

add_record_internal-Found :
    (env : Readings) (r : DnsRecord) (rs : List DnsRecord) (allow : Bool)
    → Found (key (prepared env r)) (add_record_internal env r rs allow)
unfolding add_record_internal
add_record_internal-Found env r rs allow =
    add_at-has env allow (prepared env r) rs _ (sym (find_dns_record_index_lem rs (prepared env r)))

module _ (lib : DnsLibrary) where
  add_record-Found :
      (env : Readings) (r : DnsRecord) (rs : List DnsRecord) (allow : Bool)
      → Found (key (prepared env (cleaned r))) (add_record lib env r rs allow)
  unfolding add_record
  add_record-Found env r rs allow = elim (Option-cases (check_fields lib (cleaned r))) [
    | inr (m, failed) ↦ rw (failed, add_record) (λ h. absurd (ground arith))
    | inl fine ↦
        rw (fine, add_record)
          (unfold prepared in
            add_record_internal-Found env (record (cleaned r) { added_on = env.now }) rs allow)
  ]

  -- After an AddRecord that gives no error, some record of the list has the name, type and value
  -- of the record as it is cleaned and stored, normalized as the searches compare them, whether it
  -- was appended, put in the place of an old one, or there before.
  pub has-add_record :
      (env : Readings) (r : DnsRecord) (rs : List DnsRecord) (allow : Bool)
      → (add_record lib env r rs allow).error ≡ none
      → has same_key key (key (prepared env (cleaned r))) (add_record lib env r rs allow).records
        ≡ true
  has-add_record env r rs allow = add_record-Found env r rs allow
