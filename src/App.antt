-- ===== src/App.antt =====
-- The request handling of `AppState` of src/lib.rs: its state, and what it asks of the world. A
-- request runs as one step: others come before or after it, and what they hold is in the state.
pub mod Work
pub mod Dispatch
pub mod Admission
pub mod Refusals
pub mod Replies
pub mod Handed
pub mod Sources
pub mod Guarded
pub mod Results
pub mod Bounds
pub mod Invariant
pub mod Jobs
use nano_rpc_gateway.Prelude.{
  ℕ, String, Bool, true, false, not, List, [], ◌∷◌, Option, none, some, any, get_elem?,
  if◌then◌else◌,
}
use nano_rpc_gateway.Prelude.Text.{same, eq_ignore_ascii_case}
use nano_rpc_gateway.Prelude.Result.{Result, ok, err}
use nano_rpc_gateway.Json.{Value, Fields, Number, bool, string}
use nano_rpc_gateway.Error.{GatewayError}
use nano_rpc_gateway.Registry.{Scope}
use nano_rpc_gateway.Upstream.Client.{NativeClient, Reply, call_with_response_logging}
use nano_rpc_gateway.Upstream.Router.{NativeRouter, cooling_error, call}
use nano_rpc_gateway.Guards.{ConfirmGuards}

pub data WorkProvider : Type 0 where
  local_work remote_work : WorkProvider

abbrev pub is_remote : WorkProvider → Bool
is_remote local_work = false
is_remote remote_work = true

-- The part of `Config` that a request depends on.
pub record Config : Type 0 where
  pub enable_discovery : Bool
  pub allow_work : Bool
  pub allow_control : Bool
  pub require_common_auth : Bool
  pub work_provider : WorkProvider

-- A table of jobs is keyed by the hash in upper case, as code points. A local job carries whether
-- its token has been cancelled; `slots` are the free permits of the local generator.
pub record AppState : Type 0 where
  pub native_pool : NativeRouter
  pub work_peers : NativeRouter
  pub local_work_jobs : List (List ℕ × Bool)
  pub remote_work_jobs : List (List ℕ)
  pub local_work_slots : ℕ
  pub confirm_guards : ConfirmGuards

-- How a local generation ends: with the texts of its nonce, difficulty and multiplier, cancelled,
-- with a failure of its task, or not in time.
pub data Generated : Type 0 where
  found : String → String → String → Generated
  cancelled : Generated
  task_failed : String → Generated
  timed_out : Generated

-- What a request asks of the world. The clock is read at `call_at` for the cooldowns of a pool,
-- `failure_at i` when upstream `i` fails, `reserve_at`, `cooldown_at` and `accepted_at` by the
-- guards.
pub record World : Type 0 where
  pub send : NativeClient → Fields → Reply
  pub print : Value → String
  pub status_text : ℕ → String
  pub call_at : ℕ
  pub failure_at : ℕ → ℕ
  pub reserve_at : ℕ
  pub cooldown_at : ℕ
  pub accepted_at : ℕ
  -- `openrpc_document_with_auth` for the configuration
  pub document : Value
  -- the start of the generator, its run on a root and a threshold, the threshold of the network
  -- for sends, and the threshold that a multiplier of it gives, in doubles
  pub generator : Result String (Unit {0})
  pub generate : List ℕ → ℕ → Generated
  pub send_threshold : ℕ
  pub threshold_of_multiplier : Number → ℕ

-- At an index past the pool the code would panic.
abbrev pub answer_of : World → String → Value → Option NativeClient → Result GatewayError Value
answer_of w action params none = err cooling_error
answer_of w action params (some client) =
    call_with_response_logging w.print w.status_text w.send client action params

-- `pool.call(action, params)`
unfoldable pub ask :
    World → String → Value → NativeRouter → Result GatewayError Value × NativeRouter
ask w action params r =
    call (λ i. answer_of w action params (get_elem? r.clients i)) w.failure_at w.call_at r

unfoldable pub nano_bool : Option Value → Bool
nano_bool (some (bool b)) = b
nano_bool (some (string s)) = eq_ignore_ascii_case s "true"
nano_bool _ = false

-- `HashSet::contains` and `remove`, on the hashes of jobs
unfoldable pub has_job : List ℕ → List (List ℕ) → Bool
has_job hash jobs = any (same hash) jobs

unfoldable pub drop_job : List ℕ → List (List ℕ) → List (List ℕ)
drop_job hash [] = []
drop_job hash (j ∷ js) = let rest = drop_job hash js in if same hash j then rest else j ∷ rest
