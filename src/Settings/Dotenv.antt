-- ===== src/Settings/Dotenv.antt =====
-- `load_dotenv` of src/lib.rs. A hash map is the list of its entries, with no name twice; `print` is the
-- text of a number.
use Prim.Native.String.{◌++◌}
use Prim.Native.Char.{code}
use package.text.Mathlib.Text.{◌==◌ as str_eq}
use nano_rpc_gateway.Prelude.{
  ℕ, suc, String, Bool, false, not, ◌||◌, List, [], ◌∷◌, Option, none, some, ◌==◌, if◌then◌else◌,
}
use nano_rpc_gateway.Prelude.Text.{is_blank, strip_prefix, trim, push, split_once}
use nano_rpc_gateway.Prelude.Result.{Result, ok, err, ◌>>=◌, ◌>>◌, fail_if, ok_or}
use nano_rpc_gateway.Json.{unwrap_or, and_then}
use nano_rpc_gateway.Error.{GatewayError, config_value, io}
use nano_rpc_gateway.Settings.Expand.{is_environment_name}

-- `s.strip_suffix(c)` for one character
unfoldable pub strip_suffix : ℕ → String → Option String
strip_suffix c String.[] = none
strip_suffix c (String.◌∷◌ d String.[]) = if code d == c then some "" else none
strip_suffix c (String.◌∷◌ d (String.◌∷◌ e s)) =
    and_then (strip_suffix c (String.◌∷◌ e s)) (λ t. some (String.◌∷◌ d t))

-- A line that ends with a line feed loses a carriage return before it.
unfoldable pub lines_from : String → String → List String
unfolding strip_suffix
lines_from cur String.[] = if is_blank cur then [] else cur ∷ []
lines_from cur (String.◌∷◌ c s) =
    let closed = unwrap_or (strip_suffix 13 cur) cur ∷ lines_from "" s in
    let longer = lines_from (push cur c) s in if code c == 10 then closed else longer

-- `contents.lines()`
unfoldable pub lines : String → List String
unfolding lines_from
lines contents = lines_from "" contents

-- `HashMap::get` and `insert`
unfoldable pub find : String → List (String × String) → Option String
find name [] = none
find name ((n, v) ∷ later) = if str_eq n name then some v else find name later

unfoldable pub put : String → String → List (String × String) → List (String × String)
put name value [] = (name, value) ∷ []
put name value ((n, v) ∷ later) =
    let rest = put name value later in if str_eq n name then (n, value) ∷ later else (n, v) ∷ rest

-- `line.starts_with('#')`
abbrev is_comment : String → Bool
is_comment String.[] = false
is_comment (String.◌∷◌ c s) = code c == b'#'

abbrev unquote : ℕ → String → Option String
unquote quote String.[] = none
unquote quote (String.◌∷◌ c s) = strip_suffix quote s

-- The value of an entry: one that starts with a quote has to end with it.
abbrev pub value_text : String → Option String
value_text String.[] = some ""
value_text (String.◌∷◌ c s) =
    if code c == b'\'' || code c == b'"'
    then unquote (code c) (String.◌∷◌ c s)
    else some (String.◌∷◌ c s)

abbrev pub ok_pair : String → String → Result GatewayError (String × String)
ok_pair name text = ok (name, text)

abbrev pub put_in :
    List (String × String) → String × String → Result GatewayError (List (String × String))
put_in values (name, value) = ok (put name value values)

abbrev pub skipped : String → Bool
skipped line = is_blank line || is_comment line

module _ (print : ℕ → String) where
  abbrev pub entry_error : ℕ → GatewayError
  entry_error number = config_value ("invalid .env entry at line " ++ print number)

  abbrev pub name_error : ℕ → GatewayError
  name_error number = config_value ("invalid .env variable name at line " ++ print number)

  abbrev pub quote_error : ℕ → GatewayError
  quote_error number = config_value ("unterminated .env value at line " ++ print number)

  abbrev pub check_entry : ℕ → String × String → Result GatewayError (String × String)
  check_entry number (name, value) = do
    fail_if (not (is_environment_name name)) (name_error number)
    ok_or (value_text (trim value)) (quote_error number) >>= ok_pair name

  -- The entry on a line that is not blank.
  abbrev pub read_entry : ℕ → String → Result GatewayError (String × String)
  read_entry number line = do
    let body = trim (unwrap_or (strip_prefix line "export ") line)
    ok_or (split_once b'=' body) (entry_error number) >>= check_entry number

  -- One round: a line that is blank or a comment adds nothing.
  abbrev pub read_line :
      ℕ → String → List (String × String) → Result GatewayError (List (String × String))
  read_line number line values =
      if skipped line then ok values else read_entry number line >>= put_in values

  -- The lines from the one with the given number on.
  unfoldable pub read_lines :
      ℕ → List String → List (String × String) → Result GatewayError (List (String × String))
  unfolding put strip_prefix trim split_once is_environment_name strip_suffix
  read_lines number [] values = ok values
  read_lines number (line ∷ later) values =
      read_line number (trim line) values >>= read_lines (suc number) later

  -- `load_dotenv`, over what the file system answers: the contents, that there is no such file, or
  -- another error.
  unfoldable pub load_dotenv :
      Result (Option String) String → Result GatewayError (List (String × String))
  unfolding read_lines lines
  load_dotenv (ok contents) = read_lines 1 (lines contents) []
  load_dotenv (err none) = ok []
  load_dotenv (err (some error)) = err (io error)
