-- ===== src/Records/Types.antt =====
-- The record of dnsrecords/dnsrecords.go and the results of its operations. A time is a number of
-- nanoseconds, 0 the zero time. A message keeps its level and its format with the arguments; the
-- text that fmt makes of them is not modelled.
use Prim.Native.String.{String}
use dnsplane.Base.{ℕ, Bool, false, List, [], ◌∷◌, Option, none, some}
use dnsplane.Text.{Text}

pub record DnsRecord : Type 0 where
  pub id : Text
  pub name : Text
  pub type : Text
  pub value : Text
  pub ttl : ℕ  -- uint32
  pub added_on : ℕ
  pub updated_on : ℕ
  pub mac_address : Text
  pub cache_record : Bool
  pub last_query : ℕ

-- DNSRecord{}
abbrev pub no_record : DnsRecord
no_record = record {
  id = [];
  name = [];
  type = [];
  value = [];
  ttl = 0;
  added_on = 0;
  updated_on = 0;
  mac_address = [];
  cache_record = false;
  last_query = 0;
}

pub data Level : Type 0 where
  info warn error : Level

-- A literal text, or a format with the record or text that it prints.
pub data Wording : Type 0 where
  says : String → Wording
  of_record : String → DnsRecord → Wording
  of_text : String → Text → Wording
  of_texts : String → List Text → Wording

pub record Message : Type 0 where
  pub level : Level
  pub text : Wording

abbrev pub message : Level → Wording → Message
message l w = record { level = l; text = w }

pub data Error : Type 0 where
  help_requested invalid_args : Error

-- The slice, the messages and the error that an operation returns.
pub record Outcome (A : Type 0) : Type 0 where
  pub records : List A
  pub messages : List Message
  pub error : Option Error

abbrev pub done : {A : Type 0} → List A → List Message → Outcome A
done rs ms = record { records = rs; messages = ms; error = none }

abbrev pub refused : {A : Type 0} → List A → List Message → Error → Outcome A
refused rs ms e = record { records = rs; messages = ms; error = some e }

-- A value, or the text of an error.
pub data Checked (A : Type 0) : Type 0 where
  ok : A → Checked A
  bad : Wording → Checked A

help_hint : Message
help_hint =
    message info (says "Hint: append '?', 'help', or 'h' after the command to view this usage.")

unfoldable pub usage_add : List Message
unfolding help_hint
usage_add =
    message info (says "Usage  : add <Name> [Type] <Value> [TTL]")
    ∷ message info (says "Examples:")
    ∷ message info (says "  add example.com 127.0.0.1")
    ∷ message info (says "  add example.com A 127.0.0.1")
    ∷ message info (says "  add example.com A 127.0.0.1 3600")
    ∷ help_hint
    ∷ []

unfoldable pub usage_remove : List Message
unfolding help_hint
usage_remove =
    message info (says "Usage  : remove <Name> [Type] <Value>")
    ∷ message info (says "Examples:")
    ∷ message info (says "  remove example.com 127.0.0.1")
    ∷ message info (says "  remove example.com A 127.0.0.1")
    ∷ help_hint
    ∷ []

unfoldable pub usage_list : List Message
unfolding help_hint
usage_list =
    message info (says "Usage  : record list [details|d] [filter]")
    ∷ message info (
        says
          "Description: List DNS records. Use 'details' to include timestamps, or provide a filter by name/type.")
    ∷ help_hint
    ∷ []
