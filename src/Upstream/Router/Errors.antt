-- ===== src/Upstream/Router/Errors.antt =====
-- Where the error of a call comes from: from one of the upstreams that it asked, or from the router,
-- when none of them is left to ask.
use nano_rpc_gateway.Prelude.{
  ℕ, zero, suc, ◌+◌, ◌%◌, Option, none, some, ◌≡◌, refl, inl, inr, subst, List, Bool-cases, get_or,
  ltb,
}
use nano_rpc_gateway.Prelude.Result.{Result, ok, err, Errs, Errs-ok, err-injective}
use nano_rpc_gateway.Json.{Value}
use nano_rpc_gateway.Error.{GatewayError}
use nano_rpc_gateway.Upstream.Router.{
  NativeRouter, size, active_index, cools_down, can_failover, cooling_error, exhausted, Outcome,
  mark_unhealthy, settle, call_from, call,
}

module _ (answer : ℕ → Result GatewayError Value) (clock : ℕ → ℕ) (P : GatewayError → Type 0) where
  settle-Errs :
      (a : Result GatewayError Value) (index : ℕ) (r : NativeRouter)
      (next : Option GatewayError → NativeRouter → Outcome)
      → Errs P a
      → ((e : GatewayError) (s : NativeRouter) → a ≡ err e → Errs P (next (some e) s).0)
      → Errs P (settle answer clock a index r next).0
  unfolding settle
  settle-Errs (ok value) index r next h later = Errs-ok P value
  settle-Errs (err e) index r next h later = elim (Bool-cases (cools_down e)) [
    | inl cools ↦ elim (Bool-cases (can_failover e)) [
      | inl fails_over ↦
          rw (cools, fails_over) (later e (mark_unhealthy (clock index) index r) refl)
      | inr stops ↦ rw (cools, stops) h
    ]
    | inr stays ↦ rw stays h
  ]

  call_from-Errs :
      (n start now : ℕ) (unhealthy : List ℕ) (left offset : ℕ) (last : Option GatewayError)
      (r : NativeRouter)
      → ((i : ℕ) → Errs P (answer i))
      → Errs P (exhausted last)
      → Errs P (call_from answer clock n start now unhealthy left offset last r).0
  unfolding call_from
  call_from-Errs n start now unhealthy zero offset last r each final = final
  call_from-Errs n start now unhealthy (suc left) offset last r each final =
      let index = (start + offset) % n in
      let rest = call_from-Errs n start now unhealthy left (suc offset) in
      elim (Bool-cases (ltb now (get_or unhealthy index 0))) [
        | inl cooling ↦ rw cooling (rest last r each final)
        | inr ready ↦ rw ready (
            settle-Errs (answer index) index r
              (call_from answer clock n start now unhealthy left (suc offset)) (each index)
              (λ e s same. rest (some e) s each (failed index e same)))
      ]
    where
      failed : (i : ℕ) (e : GatewayError) → answer i ≡ err e → Errs P (exhausted (some e))
      failed i e same = subst (Errs P) same (each i)

  -- What holds of the error of every upstream, and of the one that none is left, holds of the
  -- error of the call.
  pub call-Errs :
      (now : ℕ) (r : NativeRouter)
      → ((i : ℕ) → Errs P (answer i))
      → P cooling_error
      → Errs P (call answer clock now r).0
  unfolding call
  call-Errs now r each cooling =
      call_from-Errs (size r) (active_index r) now r.unhealthy_until (size r) 0 none r each
        (record { each = λ e h. subst P (err-injective h) cooling })
