-- ===== src/Validate/Params/Accepts.antt =====
-- What `validate_params` accepts, stated rule by rule with no order among the rules.
use text.Mathlib.Text.{◌==◌ as str_eq}
use nano_rpc_gateway.Prelude.{String, Bool, not, Option, none, some, ◌≡◌, ◌≢◌, All}
use nano_rpc_gateway.Prelude.Text.{is_blank}
use nano_rpc_gateway.Json.{Value, Fields, string, get, as_str, and_then, is_some_and, is_none_or}
use nano_rpc_gateway.Validate.Params.{
  required_parameter, counted_methods, switches, texts, indices, plain_texts,
}
use nano_rpc_gateway.Validate.Params.Shapes.{
  OneOf, IsText, IsTextList, IsString, IsTextOrObject, IsSwitch, IsIndex, IsSubtype, IsPositive,
  IsCount, RequiredShape, WhenPresent,
}

-- The rules on options, for a method that has a required parameter.
pub record GoodOptions (method : String) (fs : Fields) : Type 0 where
  pub count : OneOf counted_methods method → WhenPresent IsCount fs "count"
  pub switch : All (WhenPresent IsSwitch fs) switches
  pub text : All (WhenPresent IsText fs) texts
  pub index : All (WhenPresent IsIndex fs) indices
  pub account_filter : WhenPresent IsTextList fs "account_filter"
  pub subtype : WhenPresent IsSubtype fs "subtype"
  pub work : method ≡ "work_validate" → (w : String) × (get fs "work" ≡ some (string w)) × (w ≢ "")
  pub plain : All (WhenPresent IsString fs) plain_texts
  pub multiplier : WhenPresent IsPositive fs "multiplier"
  pub work_text : WhenPresent IsString fs "work"
  pub block : WhenPresent IsTextOrObject fs "block"
  pub version : (v : String) → get fs "version" ≡ some (string v) → v ≡ "work_1"

-- The rules for one call.
pub record Accepts (method : String) (fs : Fields) : Type 0 where
  pub no_action : get fs "action" ≡ none
  pub required :
      (name : String)
      → required_parameter method ≡ some name
      → ((v : Value) × (get fs name ≡ some v) × RequiredShape name v) × GoodOptions method fs

no_work : Option Value → Bool
no_work o = is_none_or (and_then o as_str) is_blank

wrong_version : Option Value → Bool
wrong_version o = is_some_and (and_then o as_str) (λ v. not (str_eq v "work_1"))

-- The two rules of a call, for the parameter that its method requires.
Rules : String → Fields → Option String → Type 0
Rules method fs required =
    (name : String)
    → required ≡ some name
    → ((v : Value) × (get fs name ≡ some v) × RequiredShape name v) × GoodOptions method fs
