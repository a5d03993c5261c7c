-- ===== src/Validate/Params.antt =====
-- `validate_params` of src/lib.rs, cut at the blank lines and loops of its body. The error is the
-- message of the JSON-RPC error -32602.
pub mod Shapes
pub mod Accepts
use Prim.Native.String.{◌++◌}
use text.Mathlib.Text.{◌==◌ as str_eq}
use nano_rpc_gateway.Prelude.{
  ℕ, String, Bool, true, false, not, ◌&&◌, ◌||◌, List, [], ◌∷◌, Option, none, some, all, any,
  is_empty, if◌then◌else◌,
}
use nano_rpc_gateway.Prelude.Text.{is_blank, codes, is_ascii_digit, parse_u64}
use nano_rpc_gateway.Prelude.Int.{ge_minus_one, is_nonneg}
use nano_rpc_gateway.Prelude.Result.{Result, ok, err, ◌>>=◌, ◌>>◌, ok_or, fail_if, for_each}
use nano_rpc_gateway.Json.{
  Value, Fields, get, contains_key, as_str, as_array, as_object, as_u64, as_i64, f64_gt_zero,
  is_string, is_boolean, is_object, and_then, is_some_and, is_none_or, get_str,
}

-- `matches!(text, "a" | "b" | …)`
abbrev pub is_one_of : List String → String → Bool
is_one_of words s = any (str_eq s) words

-- The parameter that a method cannot do without.
unfoldable pub required_parameter : String → Option String
required_parameter method =
    if is_one_of ("account_info" ∷ "receivable" ∷ "account_balance" ∷ "account_history" ∷ []) method
    then some "account"
    else if is_one_of ("accounts_balances" ∷ "accounts_frontiers" ∷ "accounts_receivable" ∷ [])
        method
    then some "accounts"
    else if is_one_of ("blocks_info" ∷ []) method
    then some "hashes"
    else if is_one_of
        ("block_info" ∷ "block_confirm" ∷ "work_generate" ∷ "work_cancel" ∷ "work_validate" ∷ [])
        method
    then some "hash"
    else if is_one_of ("process" ∷ []) method
    then some "block"
    else none

abbrev pub is_filled : String → Bool
is_filled s = not (is_blank s)

-- A text that is not empty.
abbrev pub is_text : Value → Bool
is_text v = is_some_and (as_str v) is_filled

-- A list of such texts that is not empty.
abbrev pub is_text_list : Value → Bool
is_text_list v = is_some_and (as_array v) (λ vs. not (is_empty vs) && all is_text vs)

unfoldable pub valid_required : String → Value → Bool
valid_required required v =
    if is_one_of ("account" ∷ "hash" ∷ []) required
    then is_text v
    else if is_one_of ("accounts" ∷ "hashes" ∷ []) required
    then is_text_list v
    else if is_one_of ("block" ∷ []) required
    then is_object v
    else true

-- A count in digits, with the sentinel of `account_history`.
unfoldable pub is_count_text : String → Bool
unfolding parse_u64
is_count_text s =
    str_eq s "-1"
    || (is_filled s && (all is_ascii_digit (codes s) && is_some_and (parse_u64 s) (λ _. true)))

unfoldable pub is_count : Value → Bool
is_count v =
    is_some_and (as_i64 v) ge_minus_one
    || (is_some_and (as_u64 v) (λ _. true) || is_some_and (as_str v) is_count_text)

abbrev pub is_switch : Value → Bool
is_switch v = is_boolean v || is_string v

abbrev pub is_index : Value → Bool
is_index v = is_some_and (as_i64 v) is_nonneg

abbrev pub subtypes : List String
subtypes = "send" ∷ "receive" ∷ "open" ∷ "change" ∷ "epoch" ∷ []

abbrev pub is_subtype : Value → Bool
is_subtype v = is_some_and (as_str v) (is_one_of subtypes)

abbrev pub is_text_or_object : Value → Bool
is_text_or_object v = is_string v || is_object v

abbrev pub invalid_parameter : String → String
invalid_parameter name = "invalid parameter: " ++ name

abbrev pub missing_parameter : String → String
missing_parameter name = "missing required parameter: " ++ name

-- `if object.get(name).is_some_and(|value| !valid(value)) { return Err(…) }`
abbrev pub check_option : (Value → Bool) → Fields → String → Result String (Unit {0})
check_option valid fs name =
    fail_if (is_some_and (get fs name) (λ v. not (valid v))) (invalid_parameter name)

abbrev pub counted_methods : List String
counted_methods = "account_history" ∷ "receivable" ∷ "accounts_receivable" ∷ []

abbrev pub check_count : String → Fields → Result String (Unit {0})
check_count method fs =
    if is_one_of counted_methods method then check_option is_count fs "count" else ok tt

abbrev pub switches : List String
switches =
    "include_only_confirmed" ∷ "source" ∷ "include_active" ∷ "sorting" ∷ "include_linked_account"
    ∷ "reverse" ∷ "raw" ∷ "json_block" ∷ "include_not_found" ∷ "receive_hash" ∷ "include_confirmed"
    ∷ "representative" ∷ "weight" ∷ "receivable" ∷ "use_peers" ∷ "force" ∷ "async" ∷ []

abbrev pub texts : List String
texts = "head" ∷ "threshold" ∷ []

abbrev pub indices : List String
indices = "offset" ∷ "min_version" ∷ []

abbrev pub plain_texts : List String
plain_texts = "difficulty" ∷ "account" ∷ "version" ∷ []

abbrev pub check_work : String → Fields → Result String (Unit {0})
check_work method fs =
    fail_if (str_eq method "work_validate" && is_none_or (get_str fs "work") is_blank)
      (missing_parameter "work")

abbrev pub check_version : Fields → Result String (Unit {0})
check_version fs =
    fail_if (is_some_and (get_str fs "version") (λ version. not (str_eq version "work_1")))
      (invalid_parameter "version")

-- What follows the check of the required parameter.
unfoldable pub validate_options : String → Fields → Result String (Unit {0})
validate_options method fs = do
  check_count method fs
  for_each (check_option is_switch fs) switches
  for_each (check_option is_text fs) texts
  for_each (check_option is_index fs) indices
  check_option is_text_list fs "account_filter"
  check_option is_subtype fs "subtype"
  check_work method fs
  for_each (check_option is_string fs) plain_texts
  check_option f64_gt_zero fs "multiplier"
  check_option is_string fs "work"
  check_option is_text_or_object fs "block"
  check_version fs

unfoldable pub validate_known : String → Fields → String → Result String (Unit {0})
validate_known method fs required = do
  value ← ok_or (get fs required) (missing_parameter required)
  fail_if (not (valid_required required value)) (invalid_parameter required)
  validate_options method fs

-- `_ => return Ok(())`: a method that requires nothing has none of its options checked.
unfoldable pub validate_required : String → Fields → Option String → Result String (Unit {0})
validate_required method fs none = ok tt
validate_required method fs (some required) = validate_known method fs required

unfoldable pub validate_params : String → Value → Result String (Unit {0})
validate_params method params = do
  fs ← ok_or (as_object params) "params must be an object"
  fail_if (contains_key fs "action") "params.action is reserved; select the action with method"
  validate_required method fs (required_parameter method)
