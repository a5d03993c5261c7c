-- ===== src/Upstream/Router.antt =====
-- `NativeRouter` of src/lib.rs: an ordered pool of upstream clients with an active index and a
-- cooldown for each of them. Instants are nanoseconds. A call is given what each client answers to
-- it and the instant at which it records a failure; other calls are taken to run before or after.
pub mod Reference
pub mod Invariant
pub mod Errors
pub mod Failover
pub mod Cooldowns
use nano_rpc_gateway.Prelude.{
  ℕ, zero, suc, ◌+◌, ◌%◌, Bool, true, false, List, [], ◌∷◌, Option, none, some, length, get_or, set,
  replicate, is_empty, ltb, if◌then◌else◌,
}
use nano_rpc_gateway.Prelude.Result.{Result, ok, err}
use nano_rpc_gateway.Json.{Value}
use nano_rpc_gateway.Error.{GatewayError, invalid_request, node_rate_limited, upstream_unavailable}
use nano_rpc_gateway.Upstream.Client.{NativeClient}

pub record NativeRouter : Type 0 where
  pub clients : List NativeClient
  pub active : ℕ
  pub unhealthy_until : List ℕ

-- 15 seconds.
abbrev pub upstream_cooldown : ℕ
upstream_cooldown = 15_000_000_000

-- `with_response_logging`, over clients that are already made: `NativeClient::new` on each address, and
-- the error that it can give, are left out.
unfoldable pub new : List NativeClient → ℕ → Result GatewayError NativeRouter
new clients now =
    if is_empty clients
    then err (invalid_request "at least one upstream RPC URL is required")
    else ok
        (record { clients = clients; active = 0; unhealthy_until = replicate (length clients) now })

abbrev pub size : NativeRouter → ℕ
size r = length r.clients

unfoldable pub active_index : NativeRouter → ℕ
active_index r = r.active % size r

abbrev pub cools_down : GatewayError → Bool
cools_down (upstream_unavailable _) = true
cools_down (node_rate_limited _) = true
cools_down _ = false

abbrev pub can_failover : GatewayError → Bool
can_failover (upstream_unavailable _) = true
can_failover _ = false

-- `mark_unhealthy`, at the instant that it reads.
unfoldable pub mark_unhealthy : ℕ → ℕ → NativeRouter → NativeRouter
mark_unhealthy now index r = record r {
  active = suc index % size r;
  unhealthy_until = set r.unhealthy_until index (now + upstream_cooldown);
}

abbrev pub cooling_error : GatewayError
cooling_error = upstream_unavailable "all upstreams cooling down"

-- After the loop.
abbrev pub exhausted : Option GatewayError → Result GatewayError Value
exhausted none = err cooling_error
exhausted (some e) = err e

abbrev pub Outcome : Type 0
Outcome = Result GatewayError Value × NativeRouter

-- `answer i` is what client `i` answers to this call, and `clock i` the instant at which its
-- failure is recorded.
module _ (answer : ℕ → Result GatewayError Value) (clock : ℕ → ℕ) where
  -- The `match` on an answer; `next` goes on with the loop.
  unfoldable pub settle :
      Result GatewayError Value
      → ℕ
      → NativeRouter
      → (Option GatewayError → NativeRouter → Outcome)
      → Outcome
  settle (ok value) index r next = (ok value, record r { active = index })
  settle (err e) index r next =
      let marked = mark_unhealthy (clock index) index r in
      if cools_down e
      then (if can_failover e then next (some e) marked else (err e, marked))
      else (err e, r)

  -- The loop of `call`, with the rounds that are left. The pool's size, the first index, the time
  -- and the cooldowns are those read before the loop.
  unfoldable pub call_from :
      ℕ → ℕ → ℕ → List ℕ → ℕ → ℕ → Option GatewayError → NativeRouter → Outcome
  call_from n start now unhealthy zero offset last r = (exhausted last, r)
  call_from n start now unhealthy (suc left) offset last r =
      let index = (start + offset) % n in
      let skip = call_from n start now unhealthy left (suc offset) last r in
      let attempt =
        settle (answer index) index r (call_from n start now unhealthy left (suc offset)) in
      if ltb now (get_or unhealthy index 0) then skip else attempt

  unfoldable pub call : ℕ → NativeRouter → Outcome
  call now r = call_from (size r) (active_index r) now r.unhealthy_until (size r) 0 none r
