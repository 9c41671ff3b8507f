-- ===== src/Records/History.antt =====
-- The operations on the list of records one after another, as the commands and the API call them.
use dnsplane.Base.{Bool, List, [], ◌∷◌}
use dnsplane.Text.{Text}
use dnsplane.Library.{DnsLibrary}
use dnsplane.Records.Types.{DnsRecord, Outcome}
use dnsplane.Records.Add.{Readings, add_record, add_record_internal, update_record_by_id}
use dnsplane.Records.Args.{add}
use dnsplane.Records.Remove.{remove, remove_record_by_id}
use dnsplane.Records.Keys.{KeysDistinct}
use dnsplane.Records.Invariant.{
  add_record_internal-KeysDistinct, add_record-KeysDistinct, add-KeysDistinct,
  update_record_by_id-KeysDistinct, remove-KeysDistinct, remove_record_by_id-KeysDistinct,
}

-- A call of an operation, with what the clock and the source of ids return to it.
pub data Call : Type 0 where
  call_add : Readings → List Text → Bool → Call
  call_add_record : Readings → DnsRecord → Bool → Call
  call_add_internal : Readings → DnsRecord → Bool → Call
  call_update : Readings → Text → DnsRecord → Call
  call_remove : List Text → Call
  call_remove_by_id : Text → Call

module _ (lib : DnsLibrary) where
  unfoldable pub apply : Call → List DnsRecord → Outcome DnsRecord
  apply (call_add env args allow) rs = add lib env args rs allow
  apply (call_add_record env r allow) rs = add_record lib env r rs allow
  apply (call_add_internal env r allow) rs = add_record_internal env r rs allow
  apply (call_update env id r) rs = update_record_by_id lib env id r rs
  apply (call_remove args) rs = remove lib args rs
  apply (call_remove_by_id id) rs = remove_record_by_id id rs

  -- The records after a sequence of calls.
  unfoldable pub run : List Call → List DnsRecord → List DnsRecord
  run [] rs = rs
  run (c ∷ cs) rs = run cs (apply c rs).records

  -- One call, whatever it is, keeps the keys (name, type and value, normalized) of the records
  -- distinct, also when it is refused.
  pub apply-KeysDistinct :
      (c : Call) (rs : List DnsRecord) → KeysDistinct rs → KeysDistinct (apply c rs).records
  unfolding apply
  apply-KeysDistinct (call_add env args allow) rs d = add-KeysDistinct lib env args rs allow d
  apply-KeysDistinct (call_add_record env r allow) rs d =
      add_record-KeysDistinct lib env r rs allow d
  apply-KeysDistinct (call_add_internal env r allow) rs d =
      add_record_internal-KeysDistinct env r rs allow d
  apply-KeysDistinct (call_update env id r) rs d =
      update_record_by_id-KeysDistinct lib env id r rs d
  apply-KeysDistinct (call_remove args) rs d = remove-KeysDistinct lib args rs d
  apply-KeysDistinct (call_remove_by_id id) rs d = remove_record_by_id-KeysDistinct id rs d

  run-KeysDistinct_from :
      (cs : List Call) (rs : List DnsRecord) → KeysDistinct rs → KeysDistinct (run cs rs)
  unfolding run
  run-KeysDistinct_from [] rs d = d
  run-KeysDistinct_from (c ∷ cs) rs d =
      run-KeysDistinct_from cs (apply c rs).records (apply-KeysDistinct c rs d)

  -- Whatever calls of Add, AddRecord, addRecordInternal, UpdateRecordByID, Remove and
  -- RemoveRecordByID are made on the empty list, in whatever order and with whatever arguments: no
  -- two records of the list have the same name, type and value, normalized as the searches compare
  -- them.
  pub run-KeysDistinct : (cs : List Call) → KeysDistinct (run cs [])
  run-KeysDistinct cs = run-KeysDistinct_from cs [] tt
