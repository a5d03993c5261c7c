-- ===== src/Upstream/Router/Invariant.antt =====
-- What every call keeps of the pool.
use native.Mathlib.Nat.{mod-lt}
use nano_rpc_gateway.Prelude.{
  ℕ, zero, suc, ◌+◌, ◌<◌, List, [], ◌∷◌, Option, none, some, ◌≡◌, refl, arith, length, length-set,
  length-replicate, All, subst, sym, ◌∙◌,
}
use nano_rpc_gateway.Prelude.Result.{Result, ok, err, ok-injective}
use nano_rpc_gateway.Json.{Value}
use nano_rpc_gateway.Error.{GatewayError, node_rate_limited}
use nano_rpc_gateway.Upstream.Client.{NativeClient}
use nano_rpc_gateway.Upstream.Router.{
  NativeRouter, new, size, active_index, mark_unhealthy, Outcome, call,
}
use nano_rpc_gateway.Upstream.Router.Reference.{
  rotation, healthy, candidates, unavailable, decide, pass_or, reference_from, call-reference_from,
}

-- The pool is not empty, its active index is one of it, and each upstream has a cooldown.
pub record IsWellFormed (r : NativeRouter) : Type 0 where
  pub not_empty : 0 < size r
  pub in_pool : r.active < size r
  pub cooldowns : length r.unhealthy_until ≡ size r

-- A pool that is made is well formed, and no address makes an error.
pub new-IsWellFormed :
    (clients : List NativeClient) (now : ℕ) (r : NativeRouter)
    → new clients now ≡ ok r
    → IsWellFormed r
unfolding new
new-IsWellFormed [] now r h = cc
new-IsWellFormed (c ∷ cs) now r h = subst IsWellFormed (ok-injective h) (record {
  not_empty = omega arith;
  in_pool = omega arith;
  cooldowns = length-replicate (suc (length cs)) now;
})

-- The pool after a call: well formed, over the same clients.
pub record Kept (before after : NativeRouter) : Type 0 where
  pub clients : after.clients ≡ before.clients
  pub well_formed : IsWellFormed after

mark_unhealthy-Kept :
    (now index : ℕ) (r : NativeRouter) → IsWellFormed r → Kept r (mark_unhealthy now index r)
unfolding mark_unhealthy
mark_unhealthy-Kept now index r w = record {
  clients = refl;
  well_formed = record {
    not_empty = w.not_empty;
    in_pool = mod-lt (suc index) w.not_empty;
    cooldowns = length-set r.unhealthy_until index _ ∙ w.cooldowns;
  };
}

abbrev pub InPool : NativeRouter → List ℕ → Type 0
InPool r is = All (λ i. i < size r) is

pub rotation-InPool :
    (n start left offset : ℕ) → 0 < n → All (λ i. i < n) (rotation n start left offset)
unfolding rotation
rotation-InPool n start zero offset h = tt
rotation-InPool n start (suc left) offset h =
    (mod-lt (start + offset) h, rotation-InPool n start left (suc offset) h)

healthy-InPool :
    (n now : ℕ) (unhealthy is : List ℕ)
    → All (λ i. i < n) is
    → All (λ i. i < n) (healthy now unhealthy is)
unfolding healthy
healthy-InPool n now unhealthy [] h = tt
healthy-InPool n now unhealthy (i ∷ is) h = ground (arith, healthy-InPool n now unhealthy is h.1)

module _ (answer : ℕ → Result GatewayError Value) (clock : ℕ → ℕ) where
  decide-Kept :
      (a : Result GatewayError Value) (i : ℕ) (r : NativeRouter)
      → i < size r
      → IsWellFormed r
      → Kept r (decide answer clock a i r).1
  decide-Kept (ok value) i r h w = record {
    clients = refl;
    well_formed = record { not_empty = w.not_empty; in_pool = h; cooldowns = w.cooldowns };
  }
  decide-Kept (err (node_rate_limited m)) i r h w = mark_unhealthy-Kept (clock i) i r w
  decide-Kept (err _) i r h w = record { clients = refl; well_formed = w }

  reference_from-Kept :
      (is : List ℕ) (last : Option GatewayError) (r : NativeRouter)
      → InPool r is
      → IsWellFormed r
      → Kept r (reference_from answer clock is last r).1
  unfolding reference_from
  reference_from-Kept [] last r h w = record { clients = refl; well_formed = w }
  reference_from-Kept (i ∷ is) last r h w = go (unavailable (answer i)) (λ e.
      reference_from-Kept is (some e) (mark_unhealthy (clock i) i r)
        (subst (λ cs. All (λ j. j < length cs) is) (sym marked.clients) h.1) marked.well_formed)
    where
      marked : Kept r (mark_unhealthy (clock i) i r)
      marked = mark_unhealthy-Kept (clock i) i r w

      later : GatewayError → Outcome
      later e = reference_from answer clock is (some e) (mark_unhealthy (clock i) i r)

      go :
          (o : Option GatewayError)
          → ((e : GatewayError) → Kept (mark_unhealthy (clock i) i r) (later e).1)
          → Kept r (pass_or answer clock o (decide answer clock (answer i) i r) later).1
      go none _ = decide-Kept (answer i) i r h.0 w
      go (some e) kept = record {
        clients = (kept e).clients ∙ marked.clients;
        well_formed = (kept e).well_formed;
      }

  -- A call keeps the pool well formed and its clients as they are.
  pub call-IsWellFormed :
      (now : ℕ) (r : NativeRouter)
      → IsWellFormed r
      → IsWellFormed (call answer clock now r).1 × ((call answer clock now r).1.clients ≡ r.clients)
  unfolding candidates
  call-IsWellFormed now r w =
      let kept =
        reference_from-Kept (candidates now r) none r
          (healthy-InPool (size r) now r.unhealthy_until _
            (rotation-InPool (size r) (active_index r) (size r) 0 w.not_empty))
          w in
      rw (call-reference_from answer clock now r) (kept.well_formed, kept.clients)
