-- ===== src/Settings/Load.antt =====
-- `Config::load` of src/lib.rs: the file, its variables from the environment or from the `.env` beside it,
-- its reading, and its check. What the file system answers, the environment and the parsers are
-- collected in Machine.
use nano_rpc_gateway.Prelude.{ℕ, String, List, Option, none, some}
use nano_rpc_gateway.Prelude.Result.{Result, ok, err, ◌>>=◌, ◌>>◌, map_err}
use nano_rpc_gateway.Error.{GatewayError, config, io}
use nano_rpc_gateway.Upstream.Endpoint.{Url}
use nano_rpc_gateway.Settings.{Config, default_config, validate}
use nano_rpc_gateway.Settings.Expand.{Expanded, expand_config_variables}
use nano_rpc_gateway.Settings.Dotenv.{find, load_dotenv}

-- An error of a file is none if there is no such file, and else its text.
pub record Machine : Type 0 where
  pub file : Result (Option String) String
  pub dotenv : Result (Option String) String
  -- the creation of the parent directory, if there is one, and the write of the default
  pub create_parent : Result String (Unit {0})
  pub write_default : Result String (Unit {0})
  pub environment : String → Option String
  pub from_yaml : String → Result String Config
  pub parse_url : String → Result String Url
  pub header_value : String → Result String (Unit {0})
  pub print : ℕ → String

abbrev pub or_entry : Option String → Option String → Option String
or_entry (some value) entry = some value
or_entry none entry = entry

-- The environment comes before the `.env`.
abbrev pub variable : Machine → List (String × String) → String → Option String
variable w values name = or_entry (w.environment name) (find name values)

abbrev pub Loaded : Type 0
Loaded = Option (Result GatewayError Config)

abbrev pub read_config : Machine → String → Result GatewayError Config
read_config w text = do
  read ← map_err config (w.from_yaml text)
  validate w.parse_url w.header_value read

abbrev pub read_expanded : Machine → Expanded → Loaded
read_expanded w none = none
read_expanded w (some (err error)) = some (err error)
read_expanded w (some (ok text)) = some (read_config w text)

abbrev pub read_with : Machine → ℕ → String → Result GatewayError (List (String × String)) → Loaded
read_with w fuel contents (err error) = some (err error)
read_with w fuel contents (ok values) =
    read_expanded w (expand_config_variables (variable w values) fuel contents)

abbrev pub write_new : Machine → Result GatewayError Config
write_new w = do map_err io w.create_parent; map_err io w.write_default; ok default_config

abbrev pub load_file : Machine → ℕ → Result (Option String) String → Loaded
load_file w fuel (ok contents) = read_with w fuel contents (load_dotenv w.print w.dotenv)
load_file w fuel (err none) = some (write_new w)
load_file w fuel (err (some error)) = some (err (io error))

-- `fuel` is that of the expansion.
unfoldable pub load : Machine → ℕ → Loaded
unfolding load_dotenv expand_config_variables validate find
load w fuel = load_file w fuel w.file
