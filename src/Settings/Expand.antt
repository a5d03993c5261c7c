-- ===== src/Settings/Expand.antt =====
-- `expand_config_variables` and `is_environment_name` of src/lib.rs.
use Prim.Native.String.{◌++◌}
use nano_rpc_gateway.Prelude.{
  ℕ, zero, suc, String, Bool, false, not, ◌&&◌, ◌||◌, List, [], ◌∷◌, Option, none, some, all, leb,
  ◌==◌, if◌then◌else◌,
}
use nano_rpc_gateway.Prelude.Text.{codes, strip_prefix, push, split_once}
use nano_rpc_gateway.Prelude.Result.{Result, ok, err}
use nano_rpc_gateway.Error.{GatewayError, config_value}

abbrev is_letter : ℕ → Bool
is_letter c = (leb b'A' c && leb c b'Z') || (leb b'a' c && leb c b'z') || c == b'_'

abbrev is_digit : ℕ → Bool
is_digit c = leb b'0' c && leb c b'9'

abbrev name_of : List ℕ → Bool
name_of [] = false
name_of (c ∷ cs) = is_letter c && all (λ d. is_letter d || is_digit d) cs

-- The bytes past ASCII are no letters, so a text is read by its code points.
unfoldable pub is_environment_name : String → Bool
is_environment_name name = name_of (codes name)

-- A text that is found here, or later.
abbrev pub found_at : Option String → String → Option (String × String) → Option (String × String)
found_at (some rest) passed later = some (passed, rest)
found_at none passed later = later

-- `s.find("${")`, with the text before it and the text after it; the first argument is the part that
-- has been passed.
unfoldable pub split_open : String → String → Option (String × String)
unfolding strip_prefix
split_open passed String.[] = none
split_open passed (String.◌∷◌ c s) =
    found_at (strip_prefix (String.◌∷◌ c s) "${") passed (split_open (push passed c) s)

abbrev pub unterminated : GatewayError
unterminated = config_value "unterminated configuration variable"

abbrev pub invalid_name : GatewayError
invalid_name = config_value "invalid configuration variable name"

abbrev pub not_set : String → GatewayError
not_set name = config_value ("configuration variable " ++ name ++ " is not set")

-- The rest of the loop, or its error; none where the fuel has run out.
abbrev pub Expanded : Type 0
Expanded = Option (Result GatewayError String)

module _ (lookup : String → Option String) where
  abbrev pub or_not_set : String → Option String → Result GatewayError String
  or_not_set name none = err (not_set name)
  or_not_set name (some value) = ok value

  -- What stands for a variable.
  abbrev pub value_of : String → Result GatewayError String
  value_of name =
      if not (is_environment_name name) then err invalid_name else or_not_set name (lookup name)

  abbrev pub go_on : Result GatewayError String → String → (String → Expanded) → Expanded
  go_on (err error) before next = some (err error)
  go_on (ok value) before next = next (before ++ value)

  abbrev pub at_variable :
      Option (String × String) → String → (String → String → Expanded) → Expanded
  at_variable none before next = some (err unterminated)
  at_variable (some (name, rest)) before next = go_on (value_of name) before (next rest)

  abbrev pub at_text :
      Option (String × String) → String → String → (String → String → Expanded) → Expanded
  at_text none expanded remaining next = some (ok (expanded ++ remaining))
  at_text (some (before, variable)) expanded remaining next =
      at_variable (split_once b'}' variable) (expanded ++ before) next

  -- The loop, on what is expanded and what remains.
  unfoldable pub expand_from : ℕ → String → String → Expanded
  unfolding split_open split_once is_environment_name
  expand_from zero remaining expanded = none
  expand_from (suc fuel) remaining expanded =
      at_text (split_open "" remaining) expanded remaining (expand_from fuel)

  unfoldable pub expand_config_variables : ℕ → String → Expanded
  unfolding expand_from
  expand_config_variables fuel contents = expand_from fuel contents ""
