-- ===== src/Records/Filter.antt =====
-- FilterRecords, ApplyLegacyListFilter and List of dnsrecords/dnsrecords.go.
use dnsplane.Base.{
  Bool, true, false, ◌&&◌, ◌||◌, not, List, [], ◌∷◌, ◌++◌, is_empty, filter, if◌then◌else◌, Option,
  none, some,
}
use dnsplane.Text.{Text, codes, text_eq, trim_space, contains}
use dnsplane.Library.{DnsLibrary}
use dnsplane.Cliutil.{is_help_request}
use dnsplane.Records.Types.{
  DnsRecord, info, Message, message, says, of_text, Error, help_requested, Checked, ok, bad,
  usage_list,
}
use dnsplane.Records.Normalize.{normalize_record_name_key, normalize_record_type}

-- The record passes both tests of the loop; an empty type or needle is no test.
unfoldable pub passes_filter : Text → Text → DnsRecord → Bool
passes_filter type needle r =
    (is_empty type || text_eq (normalize_record_type r.type) type)
    && (is_empty needle || contains (normalize_record_name_key r.name) needle)

-- The key of the needle: nothing where the needle is blank.
unfoldable pub needle_key : Text → Text
needle_key s =
    let needle = trim_space s in if is_empty needle then [] else normalize_record_name_key needle

pub record ListResult : Type 0 where
  pub records : List DnsRecord
  pub detailed : Bool
  pub filter : Text
  pub messages : List Message

module _ (lib : DnsLibrary) where
  unfoldable pub filter_records : List DnsRecord → Text → Text → Checked (List DnsRecord)
  unfolding passes_filter needle_key
  filter_records rs name_substr typ =
      let t = trim_space typ in
      let key = normalize_record_type t in
      if is_empty t
      then ok (filter (passes_filter [] (needle_key name_substr)) rs)
      else if lib.string_to_type key
      then ok (filter (passes_filter key (needle_key name_substr)) rs)
      else bad (of_text "invalid arguments: invalid DNS type %q" t)

  -- `out, _ := FilterRecords(...)`: nil on an error
  found : Checked (List DnsRecord) → List DnsRecord
  found (ok rs) = rs
  found (bad w) = []

  unfoldable pub apply_legacy_list_filter : List DnsRecord → Text → List DnsRecord
  unfolding filter_records found
  apply_legacy_list_filter rs s =
      let wanted = trim_space s in
      let t = normalize_record_type wanted in
      if is_empty wanted
      then rs
      else if not (is_empty t) && lib.string_to_type t
      then found (filter_records rs [] t)
      else found (filter_records rs wanted [])

  -- The arguments of List: whether the details are asked for, and the filter.
  list_args : List Text → Bool × Text
  list_args [] = (false, [])
  list_args (a ∷ rest) =
      if text_eq a (codes "details") || text_eq a (codes "d")
      then (true, elim rest [ [] ↦ [] | b ∷ _ ↦ b ])
      else (false, a)

  list_filtered : List DnsRecord → Bool → Text → ListResult
  list_filtered rs detailed wanted =
      let kept = if is_empty wanted then rs else apply_legacy_list_filter rs wanted in
      record {
        records = kept;
        detailed = detailed;
        filter = wanted;
        messages =
            (if is_empty wanted
              then []
              else message info (of_text "Filtering records by: %s" wanted) ∷ [])
            ++ (if is_empty kept then message info (says "No records found.") ∷ [] else []);
      }

  unfoldable pub list : List DnsRecord → List Text → ListResult × Option Error
  unfolding list_args list_filtered apply_legacy_list_filter
  list rs args =
      if is_help_request args
      then (
        record { records = rs; detailed = false; filter = []; messages = usage_list },
        some help_requested,
      )
      else let (detailed, wanted) = list_args args in (list_filtered rs detailed wanted, none)
