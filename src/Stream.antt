-- ===== src/Stream.antt =====
-- The subscriber side of the confirmation stream of src/lib.rs: the options of a subscription, the
-- filter on events, and the projection of an event. An event's `data` is called `payload`.
pub mod Accounts
pub mod Filter
pub mod Said
pub mod Options
pub mod Projection
use Prim.Native.String.{len}
use text.Mathlib.Text.{◌==◌ as str_eq}
use nano_rpc_gateway.Prelude.{
  ℕ, String, Bool, true, false, not, ◌&&◌, ◌||◌, List, [], ◌∷◌, Option, none, some, all, any,
  is_empty, length, ltb, if◌then◌else◌,
}
use nano_rpc_gateway.Prelude.Text.{is_blank, strip_prefix, split, trim}
use nano_rpc_gateway.Prelude.Result.{Result, ok, err, ◌>>=◌, ◌>>◌, fail_if, for_each}
use nano_rpc_gateway.Json.{
  Value, Fields, object, field, end, get, entries, remove, as_str, as_bool, as_array, as_object,
  is_string, is_boolean, member, and_then, is_some_and, unwrap_or, get_str, member_str,
}
use nano_rpc_gateway.Validate.Params.{is_one_of, is_text_list}

pub record NanoEvent : Type 0 where
  pub event : String
  pub payload : Value

pub data ConfirmationType : Type 0 where
  all_types active inactive active_quorum active_confirmation_height : ConfirmationType

pub record StreamOptions : Type 0 where
  pub confirmation_type : ConfirmationType
  pub accounts : Option (List String)
  pub include_block : Bool
  pub include_election_info : Bool
  pub include_sideband_info : Bool

-- `StreamOptions::default`
abbrev pub default_options : StreamOptions
default_options = record {
  confirmation_type = all_types;
  accounts = none;
  include_block = true;
  include_election_info = false;
  include_sideband_info = false;
}

-- `ConfirmationType::parse`
unfoldable pub parse : Option String → Result String ConfirmationType
parse none = ok all_types
parse (some s) =
    if str_eq s "all"
    then ok all_types
    else if str_eq s "active"
    then ok active
    else if str_eq s "inactive"
    then ok inactive
    else if str_eq s "active_quorum"
    then ok active_quorum
    else if str_eq s "active_confirmation_height"
    then ok active_confirmation_height
    else err "invalid value for confirmation_type"

abbrev pub is_all : ConfirmationType → Bool
is_all all_types = true
is_all _ = false

unfoldable pub accepts : ConfirmationType → Option String → Bool
accepts self none = is_all self
accepts all_types (some s) = true
accepts active (some s) = is_one_of ("active_quorum" ∷ "active_confirmation_height" ∷ []) s
accepts inactive (some s) = str_eq s "inactive"
accepts active_quorum (some s) = str_eq s "active_quorum"
accepts active_confirmation_height (some s) = str_eq s "active_confirmation_height"

abbrev pub known_options : List String
known_options =
    "confirmation_type" ∷ "accounts" ∷ "all_local_accounts" ∷ "include_block"
    ∷ "include_election_info" ∷ "include_sideband_info" ∷ []

abbrev pub is_valid_option : String → Value → Bool
is_valid_option name value =
    if str_eq name "accounts" then is_text_list value else is_boolean value || is_string value

-- One round of the loop over the members of the object.
abbrev pub check_member : String × Value → Result String (Unit {0})
check_member (name, value) = do
  fail_if (not (is_one_of known_options name)) "unknown subscription option"
  fail_if (not (is_valid_option name value)) "invalid subscription option"

-- `iter().filter_map(Value::as_str)`
abbrev pub texts_of : List Value → List String
texts_of [] = []
texts_of (v ∷ vs) = elim (as_str v) [ none ↦ texts_of vs | some s ↦ s ∷ texts_of vs ]

abbrev pub max_body_account_items : ℕ
max_body_account_items = 15_000

abbrev pub max_account_filter_items : ℕ
max_account_filter_items = 110

abbrev pub max_account_filter_bytes : ℕ
max_account_filter_bytes = 7680

abbrev pub accounts_of : Fields → Option (List String)
accounts_of fs = and_then (and_then (get fs "accounts") as_array) (λ vs. some (texts_of vs))

-- `object.get(name).and_then(Value::as_bool).unwrap_or(default)`
abbrev pub flag : Fields → String → Bool → Bool
flag fs name default = unwrap_or (and_then (get fs name) as_bool) default

unfoldable pub from_object : Fields → Result String StreamOptions
from_object fs = do
  for_each check_member (entries fs)
  fail_if (is_some_and (accounts_of fs) (λ accounts. ltb max_body_account_items (length accounts)))
      "too many accounts in filter"
  confirmation_type ← parse (get_str fs "confirmation_type")
  let include_block = flag fs "include_block" true
  fail_if (not include_block && is_some_and (accounts_of fs) (λ accounts. not (is_empty accounts)))
      "include_block false is incompatible with an accounts filter"
  ok (record {
    confirmation_type = confirmation_type;
    accounts = accounts_of fs;
    include_block = include_block;
    include_election_info = flag fs "include_election_info" false;
    include_sideband_info = flag fs "include_sideband_info" false;
  })

-- `map(str::trim).filter(|account| !account.is_empty())`
abbrev pub trimmed : List String → List String
trimmed [] = []
trimmed (s ∷ ss) = if is_blank (trim s) then trimmed ss else trim s ∷ trimmed ss

abbrev pub with_accounts : String → List String → Result String StreamOptions
with_accounts query accounts =
    if is_empty accounts
    then ok default_options
    else if ltb max_account_filter_items (length accounts)
    then err "too many accounts in filter"
    else if ltb max_account_filter_bytes (len query)
    then err "account filter is too large"
    else ok (record default_options { accounts = some accounts })

-- The argument is the member `accounts` of `EventsQuery`.
unfoldable pub from_query : Option String → Result String StreamOptions
from_query none = ok default_options
from_query (some query) = with_accounts query (trimmed (split b',' query))

-- `text.strip_prefix("nano_").or_else(|| text.strip_prefix("xrb_"))`
abbrev or_else {ℓ} : {A : Type ℓ} → Option A → Option A → Option A
or_else (some a) later = some a
or_else none later = later

unfoldable pub account_part : String → Option String
account_part s = or_else (strip_prefix s "nano_") (strip_prefix s "xrb_")

abbrev pub same_parts : Option String → Option String → Bool → Bool
same_parts (some l) (some r) same_text = str_eq l r
same_parts _ _ same_text = same_text

unfoldable pub accounts_equal : String → String → Bool
accounts_equal left right = same_parts (account_part left) (account_part right) (str_eq left right)

-- `data.get("block").and_then(Value::as_object).and_then(|block| block.get(name)).and_then(as_str)`
abbrev pub block_text : NanoEvent → String → Option String
block_text item name =
    and_then (and_then (member item.payload "block") as_object) (λ block. get_str block name)

unfoldable pub is_legacy_confirmation : NanoEvent → Bool
is_legacy_confirmation item =
    is_some_and (block_text item "type") (is_one_of ("open" ∷ "send" ∷ "receive" ∷ "change" ∷ []))

-- The closure `matches`.
abbrev pub is_wanted : List String → Option String → Bool
is_wanted wanted account = is_some_and account (λ a. any (λ w. accounts_equal w a) wanted)

abbrev pub matches_filter : NanoEvent → List String → Bool
matches_filter item [] = true
matches_filter item (w ∷ ws) =
    if is_legacy_confirmation item
    then false
    else is_wanted (w ∷ ws) (member_str item.payload "account")
      || is_wanted (w ∷ ws) (block_text item "link_as_account")

unfoldable pub event_matches_accounts : NanoEvent → Option (List String) → Bool
event_matches_accounts item none = true
event_matches_accounts item (some wanted) = matches_filter item wanted

unfoldable pub matches : StreamOptions → NanoEvent → Bool
matches options event =
    str_eq event.event "nano.confirmation"
    && (accepts options.confirmation_type (member_str event.payload "confirmation_type")
        && event_matches_accounts event options.accounts)

-- `fields.get_mut(key)`, with what is done to the value.
unfoldable pub modify : String → (Value → Value) → Fields → Fields
modify k f end = end
modify k f (field j v fs) = if str_eq j k then field j (f v) fs else field j v (modify k f fs)

abbrev pub remove_if : Bool → String → Fields → Fields
remove_if b k fs = if b then remove k fs else fs

abbrev pub strip_sideband : Value → Value
strip_sideband (object block) = object (remove "local_timestamp" (remove "height" block))
strip_sideband v = v

abbrev pub project_fields : StreamOptions → Fields → Fields
project_fields options fs =
    let fs1 = remove_if (not options.include_block) "block" fs in
    let fs2 = remove_if (not options.include_election_info) "election_info" fs1 in
    if options.include_sideband_info then fs2 else modify "block" strip_sideband fs2

abbrev pub project_payload : StreamOptions → Value → Value
project_payload options (object fs) = object (project_fields options fs)
project_payload options v = v

unfoldable pub project : StreamOptions → NanoEvent → NanoEvent
project options event = record {
  event = event.event;
  payload = project_payload options event.payload;
}
