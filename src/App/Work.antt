-- ===== src/App/Work.antt =====
-- `generate_local_work`, `decode_work_hash` and the cancellation of a local job.
use nano_rpc_gateway.Prelude.{
  ℕ, ◌+◌, ◌-◌, ◌*◌, ◌^◌, String, Bool, true, false, not, ◌&&◌, List, [], ◌∷◌, Option, none, some,
  all, any, is_empty, ltb, ◌==◌, if◌then◌else◌,
}
use nano_rpc_gateway.Prelude.Text.{
  codes, is_ascii_digit, is_ascii_hexdigit, lower, same, to_ascii_uppercase, without_plus,
}
use nano_rpc_gateway.Prelude.Result.{Result, ok, err, ◌>>=◌, ◌>>◌, ok_or, fail_if}
use nano_rpc_gateway.Json.{
  Value, Number, number, string, object, end, insert, member, member_str, and_then,
}
use nano_rpc_gateway.Error.{
  GatewayError, upstream, node_rejected, upstream_unavailable, invalid_request,
}
use nano_rpc_gateway.Guards.{is_block_hash}
use nano_rpc_gateway.App.{AppState, World, Generated, found, cancelled, task_failed, timed_out}

abbrev hex_digit : ℕ → ℕ
hex_digit c = if is_ascii_digit c then c - b'0' else lower c - b'a' + 10

unfoldable pub hex_value : ℕ → List ℕ → ℕ
hex_value acc [] = acc
hex_value acc (c ∷ cs) = hex_value (acc * 16 + hex_digit c) cs

-- `from_str_radix(text, 16)` for a type whose values are below the limit
abbrev hex_digits : ℕ → List ℕ → Option ℕ
unfolding hex_value
hex_digits limit cs =
    if is_empty cs
    then none
    else if all is_ascii_hexdigit cs && ltb (hex_value 0 cs) limit
    then some (hex_value 0 cs)
    else none

unfoldable pub from_str_radix_16 : ℕ → List ℕ → Option ℕ
unfolding hex_value
from_str_radix_16 limit cs = hex_digits limit (without_plus cs)

-- The loop over the pairs of characters.
unfoldable pub decode_pairs : List ℕ → Result GatewayError (List ℕ)
unfolding from_str_radix_16
decode_pairs (c ∷ d ∷ rest) = do
  byte ← ok_or (from_str_radix_16 256 (c ∷ d ∷ [])) (invalid_request "invalid parameter: hash")
  bytes ← decode_pairs rest
  ok (byte ∷ bytes)
decode_pairs _ = ok []

unfoldable pub decode_work_hash : String → Result GatewayError (List ℕ)
unfolding decode_pairs is_block_hash
decode_work_hash value = do
  fail_if (not (is_block_hash value))
      (invalid_request "invalid parameter: hash must be 64 hexadecimal characters")
  decode_pairs (codes value)

-- `as_f64`: every number has a double.
abbrev pub as_number : Value → Option Number
as_number (number n) = some n
as_number _ = none

abbrev pub threshold_from : World → Option String → Option Number → Result GatewayError ℕ
unfolding from_str_radix_16
threshold_from w (some difficulty) multiplier =
    ok_or (from_str_radix_16 (2 ^ 64) (codes difficulty))
      (invalid_request "invalid parameter: difficulty")
threshold_from w none (some multiplier) = ok (w.threshold_of_multiplier multiplier)
threshold_from w none none = ok w.send_threshold

-- The part before the state is read: the hash, its bytes and the threshold.
unfoldable pub prepare : World → Value → Result GatewayError (String × List ℕ × ℕ)
unfolding decode_work_hash from_str_radix_16
prepare w params = do
  hash ← ok_or (member_str params "hash") (invalid_request "missing required parameter: hash")
  bytes ← decode_work_hash hash
  threshold ←
      threshold_from w (member_str params "difficulty")
        (and_then (member params "multiplier") as_number)
  ok (hash, bytes, threshold)

abbrev work_object : String → String → String → String → Value
work_object hash work difficulty multiplier = object (
    insert "hash" (string hash) (
      insert "work" (string work)
        (insert "difficulty" (string difficulty) (insert "multiplier" (string multiplier) end))))

unfoldable pub outcome : String → Generated → Result GatewayError Value
outcome hash (found work difficulty multiplier) = ok (work_object hash work difficulty multiplier)
outcome hash cancelled = err (node_rejected "Work generation was cancelled")
outcome hash (task_failed message) = err (upstream message)
outcome hash timed_out = err (upstream_unavailable "local work generation timed out")

abbrev pub has_local_job : List ℕ → List (List ℕ × Bool) → Bool
has_local_job hash = any (λ job. same hash (job.0))

unfoldable pub drop_local_job : List ℕ → List (List ℕ × Bool) → List (List ℕ × Bool)
drop_local_job hash [] = []
drop_local_job hash (j ∷ js) =
    let rest = drop_local_job hash js in if same hash (j.0) then rest else j ∷ rest

-- The permit stays with a task that is still running when its time is over.
abbrev pub slots_after : ℕ → Generated → ℕ
slots_after slots timed_out = slots - 1
slots_after slots _ = slots

-- From the entry of the job into the table to the drop of its guard.
unfoldable pub run_job :
    World
    → String
    → List ℕ
    → ℕ
    → AppState
    → Result String (Unit {0})
    → Result GatewayError Value × AppState
unfolding outcome drop_local_job
run_job w hash bytes threshold s (err message) = (
  err (upstream message),
  record s {
    local_work_jobs =
        drop_local_job (to_ascii_uppercase hash)
          ((to_ascii_uppercase hash, false) ∷ s.local_work_jobs);
  },
)
run_job w hash bytes threshold s (ok _) = (
  outcome hash (w.generate bytes threshold),
  record s {
    local_work_jobs =
        drop_local_job (to_ascii_uppercase hash)
          ((to_ascii_uppercase hash, false) ∷ s.local_work_jobs);
    local_work_slots = slots_after s.local_work_slots (w.generate bytes threshold);
  },
)

unfoldable pub run_prepared :
    World
    → AppState
    → Result GatewayError (String × List ℕ × ℕ)
    → Result GatewayError Value × AppState
unfolding run_job
run_prepared w s (err e) = (err e, s)
run_prepared w s (ok (hash, bytes, threshold)) =
    if s.local_work_slots == 0
    then (err (upstream_unavailable "local work generator is busy"), s)
    else if has_local_job (to_ascii_uppercase hash) s.local_work_jobs
    then (err (upstream_unavailable "work is already being generated for this hash"), s)
    else run_job w hash bytes threshold s w.generator

unfoldable pub generate_local_work : World → Value → AppState → Result GatewayError Value × AppState
unfolding prepare run_prepared
generate_local_work w params s = run_prepared w s (prepare w params)

-- `if let Some(token) = jobs.get(hash) { token.cancel() }`
unfoldable pub cancel_local_job : List ℕ → List (List ℕ × Bool) → List (List ℕ × Bool)
cancel_local_job hash [] = []
cancel_local_job hash (j ∷ js) =
    let rest = cancel_local_job hash js in if same hash (j.0) then (j.0, true) ∷ js else j ∷ rest
