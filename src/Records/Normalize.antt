-- ===== src/Records/Normalize.antt =====
-- The keys of dnsrecords/dnsrecords.go: how a name, a type and a value are compared.
use dnsplane.Base.{◌≡◌, Bool, ◌||◌, if◌then◌else◌, is_empty}
use dnsplane.Text.{Text, codes, text_eq, is_dot, to_lower, to_upper, trim_space, trim_dots}
use dnsplane.Text.Trim.{EndsOff, trim_right-EndsOff, trim_space_idem}
use dnsplane.Text.Lower.{to_upper_idem, trim_space-to_upper}

unfoldable pub normalize_record_type : Text → Text
normalize_record_type t = to_upper (trim_space t)

unfoldable pub canonicalize_record_name : Text → Text
canonicalize_record_name name = trim_dots (trim_space name)

unfoldable pub normalize_record_name_key : Text → Text
unfolding canonicalize_record_name
normalize_record_name_key name = to_lower (canonicalize_record_name name)

-- `case "CNAME", "NS", "PTR"`
abbrev is_name_type : Text → Bool
is_name_type t = text_eq t (codes "CNAME") || text_eq t (codes "NS") || text_eq t (codes "PTR")

-- `case "A", "AAAA"`
abbrev pub is_address_type : Text → Bool
is_address_type t = text_eq t (codes "A") || text_eq t (codes "AAAA")

unfoldable pub normalize_record_value_key : Text → Text → Text
unfolding normalize_record_type normalize_record_name_key
normalize_record_value_key type value =
    let t = normalize_record_type type in
    let v = trim_space value in
    if is_empty t
    then v
    else if is_name_type t
    then normalize_record_name_key v
    else if is_address_type t
    then to_lower v
    else v

-- The type key of a type key is itself.
pub normalize_record_type_idem :
    (t : Text) → normalize_record_type (normalize_record_type t) ≡ normalize_record_type t
unfolding normalize_record_type
normalize_record_type_idem t =
    rw (trim_space-to_upper (trim_space t), trim_space_idem t) (to_upper_idem (trim_space t))

-- Whether a type is given as itself or as its key makes no difference to the key of a value.
pub value_key-type_key :
    (t v : Text)
    → normalize_record_value_key (normalize_record_type t) v ≡ normalize_record_value_key t v
unfolding normalize_record_value_key
value_key-type_key t v = rw (normalize_record_type_idem t)

-- A name as it is stored does not end in a dot.
pub canonicalize_record_name-EndsOff :
    (name : Text) → EndsOff is_dot (canonicalize_record_name name)
unfolding canonicalize_record_name trim_dots
canonicalize_record_name-EndsOff name = trim_right-EndsOff is_dot (trim_space name)
