-- ===== src/Upstream/Router/Cooldowns.antt =====
-- What a call does to the cooldowns, and to the active index.
use mathlib.Core.List.{Memᴰ}
use native.Mathlib.Decide.{ℕ_discrete}
use nano_rpc_gateway.Prelude.{
  ℕ, ◌+◌, ◌<◌, ◌≤◌, true, List, [], ◌∷◌, Option, none, some, ◌≡◌, refl, ◌≢◌, ◌⊎◌, inl, inr, arith,
  get_or, length, length-set, get_or-set_self, get_or-set_ne, All, subst, ap, sym, ◌∙◌,
  Option-cases,
}
use nano_rpc_gateway.Prelude.Result.{Result, ok, err}
use nano_rpc_gateway.Json.{Value}
use nano_rpc_gateway.Error.{GatewayError, node_rate_limited, upstream_unavailable}
use nano_rpc_gateway.Upstream.Router.{
  NativeRouter, size, mark_unhealthy, upstream_cooldown, cools_down, cooling_error, Outcome, call,
}
use nano_rpc_gateway.Upstream.Router.Reference.{
  candidates, unavailable, decide, reference_from, call-reference_from,
}
use nano_rpc_gateway.Upstream.Router.Invariant.{IsWellFormed}
use nano_rpc_gateway.Upstream.Router.Failover.{mem-candidates_iff, reference_from-Decided}

-- The instant until which an upstream is left out.
abbrev pub until : NativeRouter → ℕ → ℕ
until r i = get_or r.unhealthy_until i 0

until-mark_unhealthy_self :
    (now i : ℕ) (r : NativeRouter)
    → i < length r.unhealthy_until
    → until (mark_unhealthy now i r) i ≡ now + upstream_cooldown
unfolding mark_unhealthy
until-mark_unhealthy_self now i r h = get_or-set_self r.unhealthy_until i _ 0 h

until-mark_unhealthy_ne :
    (now i j : ℕ) (r : NativeRouter) → i ≢ j → until (mark_unhealthy now i r) j ≡ until r j
unfolding mark_unhealthy
until-mark_unhealthy_ne now i j r h = get_or-set_ne r.unhealthy_until i j _ 0 h

length-mark_unhealthy :
    (now i : ℕ) (r : NativeRouter)
    → length (mark_unhealthy now i r).unhealthy_until ≡ length r.unhealthy_until
unfolding mark_unhealthy
length-mark_unhealthy now i r = length-set r.unhealthy_until i _

All-of-members : {P : ℕ → Type 0} (is : List ℕ) → ((i : ℕ) → Memᴰ i is → P i) → All P is
All-of-members [] h = tt
All-of-members (i ∷ is) h = (h i (Memᴰ.head refl), All-of-members is (λ j m. h j (Memᴰ.tail m)))

empty_of-members : (is : List ℕ) → ((i : ℕ) → Memᴰ i is → ⊥) → is ≡ []
empty_of-members [] h = refl
empty_of-members (i ∷ is) h = absurd (h i (Memᴰ.head refl))

module _ (answer : ℕ → Result GatewayError Value) (clock : ℕ → ℕ) where
  -- Upstream `j` was asked, and failed for want of capacity: it is left out for 15 seconds from the
  -- instant of the failure.
  pub record Cooled (is : List ℕ) (after : NativeRouter) (j : ℕ) : Type 0 where
    pub asked : Memᴰ j is
    pub error : GatewayError
    pub failed : answer j ≡ err error
    pub capacity : cools_down error ≡ true
    pub left_out : until after j ≡ clock j + upstream_cooldown

  abbrev Untouched : NativeRouter → NativeRouter → ℕ → Type 0
  Untouched before after j = until after j ≡ until before j

  error_of_unavailable :
      (a : Result GatewayError Value) (e : GatewayError)
      → unavailable a ≡ some e
      → (a ≡ err e) × (cools_down e ≡ true)
  error_of_unavailable (err (upstream_unavailable m)) e h = ground arith
  error_of_unavailable (err _) e h = cc
  error_of_unavailable (ok _) e h = cc

  -- One mark: upstream `i` is left out, the others are as they were.
  mark-touch :
      (is : List ℕ) (i j : ℕ) (e : GatewayError) (r after : NativeRouter)
      → i < length r.unhealthy_until
      → answer i ≡ err e
      → cools_down e ≡ true
      → Memᴰ i is
      → Untouched (mark_unhealthy (clock i) i r) after j
      → Untouched r after j ⊎ Cooled is after j
  mark-touch is i j e r after h f c m u = elim (ℕ_discrete i j) [
    | yes same ↦ inr (record {
      asked = subst (λ k. Memᴰ k is) same m;
      error = e;
      failed = subst (λ k. answer k ≡ err e) same f;
      capacity = c;
      left_out =
          subst
            (λ k.
              Untouched (mark_unhealthy (clock i) i r) after k
              → until after k ≡ clock k + upstream_cooldown)
            same (λ v. v ∙ until-mark_unhealthy_self (clock i) i r h) u;
    })
    | no other ↦ inl (u ∙ until-mark_unhealthy_ne (clock i) i j r other)
  ]

  decide-touch :
      (is : List ℕ) (i j : ℕ) (r : NativeRouter) (a : Result GatewayError Value)
      → i < length r.unhealthy_until
      → answer i ≡ a
      → Memᴰ i is
      → Untouched r (decide answer clock a i r).1 j ⊎ Cooled is (decide answer clock a i r).1 j
  decide-touch is i j r (err (node_rate_limited m)) h f l =
      mark-touch is i j (node_rate_limited m) r _ h f refl l refl
  decide-touch is i j r (err _) h f l = inl refl
  decide-touch is i j r (ok v) h f l = inl refl

  reference_from-touch :
      (is : List ℕ) (last : Option GatewayError) (r : NativeRouter) (j : ℕ)
      → All (λ i. i < length r.unhealthy_until) is
      → Untouched r (reference_from answer clock is last r).1 j
        ⊎ Cooled is (reference_from answer clock is last r).1 j
  unfolding reference_from
  reference_from-touch [] last r j h = inl refl
  reference_from-touch (i ∷ is) last r j h = elim (Option-cases (unavailable (answer i))) [
    | inl stops ↦ rw stops (decide-touch (i ∷ is) i j r (answer i) h.0 refl (Memᴰ.head refl))
    | inr (e, passed) ↦
        let (f, c) = error_of_unavailable (answer i) e passed in
        let marked = mark_unhealthy (clock i) i r in
        let all_in =
          subst (λ n. All (λ k. k < n) is) (sym (length-mark_unhealthy (clock i) i r)) h.1 in
        rw passed (elim (reference_from-touch is (some e) marked j all_in) [
          | inl u ↦ mark-touch (i ∷ is) i j e r _ h.0 f c (Memᴰ.head refl) u
          | inr cooled ↦ inr (record {
            asked = Memᴰ.tail cooled.asked;
            error = cooled.error;
            failed = cooled.failed;
            capacity = cooled.capacity;
            left_out = cooled.left_out;
          })
        ])
  ]

  -- Each upstream is as it was after a call, or it was a candidate that failed for want of
  -- capacity, and is then left out for 15 seconds. So an error of any other kind, such as a block
  -- that the node rejects, takes no upstream out.
  pub call-touch :
      (now : ℕ) (r : NativeRouter) (j : ℕ)
      → IsWellFormed r
      → (until (call answer clock now r).1 j ≡ until r j)
        ⊎ Cooled (candidates now r) (call answer clock now r).1 j
  call-touch now r j w = rw (call-reference_from answer clock now r) (
      reference_from-touch (candidates now r) none r j (
        All-of-members (candidates now r)
          (λ i m. rw w.cooldowns ((mem-candidates_iff now r i w).0 m).0)))

  -- With every upstream on cooldown, nobody is asked: the call fails with the gateway's own error,
  -- and the pool stays as it was.
  pub call_all_cooling :
      (now : ℕ) (r : NativeRouter)
      → IsWellFormed r
      → ((i : ℕ) → i < size r → now < until r i)
      → call answer clock now r ≡ (err cooling_error, r)
  unfolding reference_from
  call_all_cooling now r w cooling =
      call-reference_from answer clock now r
      ∙ ap (λ is. reference_from answer clock is none r)
          (empty_of-members (candidates now r) (λ i m.
            let (inside, ready) = (mem-candidates_iff now r i w).0 m in
            absurd (omega (arith, cooling i inside))))

  reference_from-ok :
      (is : List ℕ) (last : Option GatewayError) (r after : NativeRouter) (v : Value)
      → reference_from answer clock is last r ≡ (ok v, after)
      → Memᴰ after.active is × (answer after.active ≡ ok v)
  unfolding reference_from
  reference_from-ok [] none r after v h = ground arith
  reference_from-ok [] (some e) r after v h = ground arith
  reference_from-ok (i ∷ is) last r after v h = elim (Option-cases (unavailable (answer i))) [
    | inl stops ↦
        let (at, f) = decide-ok (answer i) i r after v (rw stops at h) in (Memᴰ.head at, rw at f)
    | inr (e, passed) ↦
        let (m, f) =
          reference_from-ok is (some e) (mark_unhealthy (clock i) i r) after v (rw passed at h) in
        (Memᴰ.tail m, f)
  ]
    where
      decide-ok :
          (a : Result GatewayError Value) (i : ℕ) (r after : NativeRouter) (v : Value)
          → decide answer clock a i r ≡ (ok v, after)
          → (after.active ≡ i) × (a ≡ ok v)
      decide-ok (ok w) i r after v h = ground arith
      decide-ok (err (node_rate_limited m)) i r after v h = ground arith
      decide-ok (err _) i r after v h = ground arith

  -- A call that succeeds makes the upstream that answered the active one, and that upstream was
  -- not on cooldown.
  pub call-ok :
      (now : ℕ) (r after : NativeRouter) (v : Value)
      → IsWellFormed r
      → call answer clock now r ≡ (ok v, after)
      → (answer after.active ≡ ok v) × (after.active < size r) × (until r after.active ≤ now)
  call-ok now r after v w h =
      let (m, f) =
        reference_from-ok (candidates now r) none r after v
          (sym (call-reference_from answer clock now r) ∙ h) in
      let (inside, ready) = (mem-candidates_iff now r after.active w).0 m in (f, inside, ready)

  -- If some upstream is off cooldown and does not turn out unavailable, the call has the answer of
  -- such an upstream: failover does not give up before it.
  pub call_answered :
      (now : ℕ) (r : NativeRouter) (i : ℕ)
      → IsWellFormed r
      → i < size r
      → until r i ≤ now
      → unavailable (answer i) ≡ none
      → (j : ℕ) × (j < size r)
        × (until r j ≤ now)
        × ((call answer clock now r).0 ≡ answer j)
        × (unavailable (answer j) ≡ none)
  call_answered now r i w inside ready decisive =
      let d =
        reference_from-Decided answer clock (candidates now r) none r i
          ((mem-candidates_iff now r i w).1 (inside, ready)) decisive in
      let (j_in, j_ready) = (mem-candidates_iff now r d.index w).0 d.asked in
      (
        d.index,
        j_in,
        j_ready,
        ap (λ (out : Outcome). out.0) (call-reference_from answer clock now r) ∙ d.stands,
        d.decisive,
      )
