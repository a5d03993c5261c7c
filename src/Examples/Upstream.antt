-- ===== src/Examples/Upstream.antt =====
-- The upstream clients and their pool: two upstreams, the first of which is down.
use nano_rpc_gateway.Prelude.{ℕ, zero, suc, ◌<◌, ◌≤◌, String, List, [], ◌∷◌, none, ◌≡◌, refl, arith}
use nano_rpc_gateway.Prelude.Result.{Result, ok, err}
use nano_rpc_gateway.Json.{Value, Fields, string, object, field, end}
use nano_rpc_gateway.Error.{GatewayError, upstream_unavailable}
use nano_rpc_gateway.Upstream.Client.{NativeClient}
use nano_rpc_gateway.Upstream.Router.{
  NativeRouter, size, active_index, mark_unhealthy, settle, call_from, call,
}
use nano_rpc_gateway.Upstream.Router.Reference.{
  candidates, unavailable, reference_from, call-reference_from,
}
use nano_rpc_gateway.Upstream.Router.Invariant.{IsWellFormed}
use nano_rpc_gateway.Upstream.Router.Cooldowns.{until, call_answered}

abbrev client : NativeClient
client = record { endpoint = "http://[::1]:7076"; label = "[::1]:7076"; basic_auth = none }

abbrev pool : List ℕ → NativeRouter
pool until_ = record { clients = client ∷ client ∷ []; active = 0; unhealthy_until = until_ }

abbrev two : NativeRouter
two = pool (0 ∷ 0 ∷ [])

abbrev cooling : NativeRouter
cooling = pool (9 ∷ 9 ∷ [])

abbrev answer : ℕ → Result GatewayError Value
answer zero = err (upstream_unavailable "HTTP 503")
answer (suc i) = ok (string "pong")

abbrev clock : ℕ → ℕ
clock i = 7

two-IsWellFormed : IsWellFormed two
two-IsWellFormed = record { not_empty = omega arith; in_pool = omega arith; cooldowns = refl }

cooling-IsWellFormed : IsWellFormed cooling
cooling-IsWellFormed = record { not_empty = omega arith; in_pool = omega arith; cooldowns = refl }

-- The second upstream answers, and the first goes on cooldown.
abbrev two_after : NativeRouter
two_after = record {
  clients = client ∷ client ∷ [];
  active = 1;
  unhealthy_until = 15_000_000_007 ∷ 0 ∷ [];
}

two-call : call answer clock 5 two ≡ (ok (string "pong"), two_after)
unfolding call call_from settle mark_unhealthy active_index
two-call = refl

call-reference_from_example :
    call answer clock 5 two ≡ reference_from answer clock (candidates 5 two) none two
call-reference_from_example = call-reference_from answer clock 5 two

all_cooling : (i : ℕ) → i < size cooling → 5 < until cooling i
all_cooling zero h = omega arith
all_cooling (suc zero) h = omega arith
all_cooling (suc (suc i)) h = absurd (omega arith)

call_answered_example :
    (j : ℕ) × (j < size two)
    × (until two j ≤ 5)
    × ((call answer clock 5 two).0 ≡ answer j)
    × (unavailable (answer j) ≡ none)
call_answered_example =
    call_answered answer clock 5 two 1 two-IsWellFormed (omega arith) (omega arith) refl

abbrev params : Fields
params = field "account" (string "nano_1") (field "action" (string "stop") end)

abbrev print : Value → String
print (string s) = s
print _ = "{}"

abbrev status_text : ℕ → String
status_text status = "status"

abbrev refusal : Value
refusal = object (field "error" (string "Bad account number") end)
