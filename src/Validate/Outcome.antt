-- ===== src/Validate/Outcome.antt =====
-- `validate_result`, `validate_receivable_value`, `has_string` and
-- `normalize_work_generate_result` of src/lib.rs. `validate_result` calls itself for the entries of
-- two maps; those two calls are the functions `valid_account_balance` and `valid_block_info`.
pub mod Aliases
pub mod Receivable
pub mod Inventory
use text.Mathlib.Text.{◌==◌ as str_eq}
use nano_rpc_gateway.Prelude.{
  String, Bool, true, false, not, ◌&&◌, ◌||◌, List, [], ◌∷◌, Option, none, some, all, if◌then◌else◌,
}
use nano_rpc_gateway.Prelude.Text.{is_blank}
use nano_rpc_gateway.Json.{
  Value, Fields, null, bool, number, string, array, object, items, values, get, contains_key,
  insert, remove, as_str, as_object, is_string, is_boolean, is_array, is_object, is_some_and,
  is_none_or, get_str, member_str,
}

unfoldable pub has_string : Fields → String → Bool
has_string fs name = is_some_and (get_str fs name) (λ s. not (is_blank s))

-- `["a", "b", …].iter().all(|field| has_string(object, field))`
abbrev pub has_strings : Fields → List String → Bool
has_strings fs names = all (has_string fs) names

-- An entry of a receivable map: an amount, or an amount with its source.
unfoldable pub is_receivable_entry : Value → Bool
is_receivable_entry (string _) = true
is_receivable_entry (object fields) =
    is_some_and (get fields "amount") is_string && is_some_and (get fields "source") is_string
is_receivable_entry _ = false

unfoldable pub validate_receivable_value : Value → Bool
validate_receivable_value (array hashes) = all is_string (items hashes)
validate_receivable_value (object entries) = all is_receivable_entry (values entries)
validate_receivable_value (string text) = is_blank text
validate_receivable_value _ = false

unfoldable pub validate_receivable_result : Fields → Bool
validate_receivable_result fs = is_some_and (get fs "blocks") validate_receivable_value

-- `value.as_object().is_some_and(|items| items.values().all(test))`
abbrev pub is_map_of : (Value → Bool) → Value → Bool
is_map_of test v = is_some_and (as_object v) (λ entries. all test (values entries))

abbrev balance_fields : List String
balance_fields = "balance" ∷ "receivable" ∷ []

abbrev pub valid_account_balance : Value → Bool
valid_account_balance v = is_some_and (as_object v) (λ fs. has_strings fs balance_fields)

abbrev pub block_info_object : Fields → Bool
block_info_object fs =
    has_strings fs ("block_account" ∷ "amount" ∷ "balance" ∷ "height" ∷ "local_timestamp" ∷ [])
    && (contains_key fs "contents"
        && is_some_and (get fs "confirmed") (λ c. is_boolean c || is_string c))

abbrev pub valid_block_info : Value → Bool
valid_block_info v = is_some_and (as_object v) block_info_object

abbrev pub accounts_balances_object : Fields → Bool
accounts_balances_object fs =
    (is_some_and (get fs "balances") (is_map_of valid_account_balance)
      || is_some_and (get fs "errors") (is_map_of is_string))
    && (is_none_or (get fs "balances") is_object && is_none_or (get fs "errors") is_object)

abbrev pub accounts_frontiers_object : Fields → Bool
accounts_frontiers_object fs =
    is_none_or (get fs "frontiers") (is_map_of is_string)
    && is_none_or (get fs "errors") (is_map_of is_string)

abbrev pub work_validate_object : Fields → Bool
work_validate_object fs =
    has_strings fs ("valid_all" ∷ "valid_receive" ∷ "difficulty" ∷ "multiplier" ∷ [])
    && is_none_or (get fs "valid")
        (λ value. is_some_and (as_str value) (λ valid. str_eq valid "0" || str_eq valid "1"))

-- `value.and_then(Value::as_str) == Some(word)`
abbrev pub is_word : Option String → String → Bool
is_word o word = is_some_and o (λ s. str_eq s word)

-- The arms of the `match` on the method.
unfoldable pub validate_object : String → Fields → Bool
validate_object method fs =
    if str_eq method "version"
    then has_string fs "rpc_version"
    else if str_eq method "block_count"
    then has_strings fs ("count" ∷ "unchecked" ∷ "cemented" ∷ [])
    else if str_eq method "account_info"
    then has_strings fs (
        "frontier" ∷ "open_block" ∷ "representative_block" ∷ "balance" ∷ "modified_timestamp"
        ∷ "block_count" ∷ "account_version" ∷ [])
    else if str_eq method "account_balance"
    then has_strings fs balance_fields
    else if str_eq method "accounts_balances"
    then accounts_balances_object fs
    else if str_eq method "account_history"
    then has_string fs "account" && is_some_and (get fs "history") is_array
    else if str_eq method "block_info"
    then block_info_object fs
    else if str_eq method "blocks_info"
    then is_some_and (get fs "blocks") (is_map_of valid_block_info)
    else if str_eq method "accounts_frontiers"
    then accounts_frontiers_object fs
    else if str_eq method "block_confirm"
    then is_word (get_str fs "started") "1"
    else if str_eq method "receivable"
    then validate_receivable_result fs
    else if str_eq method "accounts_receivable"
    then is_some_and (get fs "blocks") (is_map_of validate_receivable_value)
    else if str_eq method "process"
    then has_string fs "hash"
    else if str_eq method "work_generate"
    then has_strings fs ("hash" ∷ "work" ∷ "difficulty" ∷ "multiplier" ∷ [])
    else if str_eq method "work_cancel"
    then is_word (get_str fs "success") ""
    else if str_eq method "work_validate"
    then work_validate_object fs
    else false

unfoldable pub validate_result : String → Value → Bool
validate_result method result = is_some_and (as_object result) (validate_object method)

-- The object with the alias renamed, where the alias names the requested root.
abbrev pub rename_frontier : String → Fields → Fields
rename_frontier hash fs = insert "hash" (string hash) (remove "frontier" fs)

abbrev pub is_alias : String → Fields → Bool
is_alias hash fs = not (contains_key fs "hash") && is_word (get_str fs "frontier") hash

-- The result that the caller gets, and whether it was changed.
abbrev pub normalize_for : Option String → Value → Value × Bool
normalize_for (some hash) (object fields) =
    if is_alias hash fields
    then (object (rename_frontier hash fields), true)
    else (object fields, false)
normalize_for _ result = (result, false)

unfoldable pub normalize_work_generate_result : String → Value → Value → Value × Bool
normalize_work_generate_result method params result =
    if str_eq method "work_generate"
    then normalize_for (member_str params "hash") result
    else (result, false)
