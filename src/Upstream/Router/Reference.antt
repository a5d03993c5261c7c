-- ===== src/Upstream/Router/Reference.antt =====
-- A call without its loop: the healthy upstreams in their order, those that are passed over, and
-- the one that decides.
use nano_rpc_gateway.Prelude.{
  ℕ, zero, suc, ◌+◌, ◌%◌, true, false, List, [], ◌∷◌, Option, none, some, ◌≡◌, refl, arith, get_or,
  leb, ltb, if◌then◌else◌, dec_lt, ap, fun_ext, ◌∙◌,
}
use nano_rpc_gateway.Prelude.Result.{Result, ok, err}
use nano_rpc_gateway.Json.{Value}
use nano_rpc_gateway.Error.{GatewayError, config, node_rate_limited, upstream_unavailable}
use nano_rpc_gateway.Upstream.Router.{
  NativeRouter, size, active_index, mark_unhealthy, exhausted, Outcome, settle, call_from, call,
}

-- The indices from the active one on, round the pool once.
unfoldable pub rotation : ℕ → ℕ → ℕ → ℕ → List ℕ
rotation n start zero offset = []
rotation n start (suc left) offset = (start + offset) % n ∷ rotation n start left (suc offset)

-- Those whose cooldown is over.
unfoldable pub healthy : ℕ → List ℕ → List ℕ → List ℕ
healthy now unhealthy [] = []
healthy now unhealthy (i ∷ is) =
    if leb (get_or unhealthy i 0) now
    then i ∷ healthy now unhealthy is
    else healthy now unhealthy is

unfoldable pub candidates : ℕ → NativeRouter → List ℕ
unfolding healthy rotation
candidates now r = healthy now r.unhealthy_until (rotation (size r) (active_index r) (size r) 0)

-- The message of an upstream that could not be reached, or that had no capacity.
abbrev pub unavailable : Result GatewayError Value → Option GatewayError
unavailable (err (upstream_unavailable m)) = some (upstream_unavailable m)
unavailable _ = none

module _ (answer : ℕ → Result GatewayError Value) (clock : ℕ → ℕ) where
  -- What the upstream that decides does to the pool: a result makes it the active one, a rate limit
  -- puts it on cooldown, and any other error leaves the pool alone.
  abbrev pub decide : Result GatewayError Value → ℕ → NativeRouter → Outcome
  decide (ok value) i r = (ok value, record r { active = i })
  decide (err (node_rate_limited m)) i r = (err (node_rate_limited m), mark_unhealthy (clock i) i r)
  decide (err e) i r = (err e, r)

  -- Going past an unavailable upstream, or stopping at one that decides.
  abbrev pub pass_or : Option GatewayError → Outcome → (GatewayError → Outcome) → Outcome
  pass_or none here later = here
  pass_or (some e) here later = later e

  -- The first candidate that is not unavailable decides; those before it go on cooldown.
  unfoldable pub reference_from : List ℕ → Option GatewayError → NativeRouter → Outcome
  reference_from [] last r = (exhausted last, r)
  reference_from (i ∷ is) last r =
      pass_or (unavailable (answer i)) (decide (answer i) i r)
        (λ e. reference_from is (some e) (mark_unhealthy (clock i) i r))

  settle-decide :
      (a : Result GatewayError Value) (i : ℕ) (r : NativeRouter)
      (next : Option GatewayError → NativeRouter → Outcome)
      → settle answer clock a i r next
        ≡ pass_or (unavailable a) (decide a i r) (λ e. next (some e) (mark_unhealthy (clock i) i r))
  unfolding settle
  settle-decide (ok value) i r next = refl
  settle-decide (err (config m)) i r next = refl
  settle-decide (err _) i r next = refl

  module _ (n start now : ℕ) (unhealthy : List ℕ) where
    abbrev rest : ℕ → ℕ → List ℕ
    rest left offset = healthy now unhealthy (rotation n start left offset)

    call_from-reference_from :
        (left offset : ℕ) (last : Option GatewayError) (r : NativeRouter)
        → call_from answer clock n start now unhealthy left offset last r
          ≡ reference_from (rest left offset) last r
    unfolding call_from reference_from healthy rotation
    call_from-reference_from zero offset last r = refl
    call_from-reference_from (suc left) offset last r =
        let index = (start + offset) % n in
        elim (dec_lt now (get_or unhealthy index 0)) [
          | yes cooling ↦ ground (arith, call_from-reference_from left (suc offset) last r)
          | no ready ↦
              let runs : ltb now (get_or unhealthy index 0) ≡ false = ground arith in
              let listed : leb (get_or unhealthy index 0) now ≡ true = ground arith in
              rw (runs, listed)
                (settle-decide (answer index) index r _
                  ∙ ap (pass_or (unavailable (answer index)) (decide (answer index) index r)) (
                      fun_ext λ e.
                        call_from-reference_from left (suc offset) (some e)
                          (mark_unhealthy (clock index) index r)))
        ]

  -- A call is its reference: the healthy upstreams are asked in their order from the active one on,
  -- the first that is not unavailable decides, and those before it go on cooldown.
  pub call-reference_from :
      (now : ℕ) (r : NativeRouter)
      → call answer clock now r ≡ reference_from (candidates now r) none r
  unfolding call candidates
  call-reference_from now r =
      call_from-reference_from (size r) (active_index r) now r.unhealthy_until (size r) 0 none r
