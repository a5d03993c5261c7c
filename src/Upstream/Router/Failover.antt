-- ===== src/Upstream/Router/Failover.antt =====
-- Which upstreams a call asks, and which of them decides.
use mathlib.Core.List.{Memᴰ}
use mathlib.Core.List.Memᴰ
use native.Mathlib.Nat.{mod-lt, mod-eq_of_lt, mod-eq-sub-mod}
use nano_rpc_gateway.Prelude.{
  ℕ, zero, suc, ◌+◌, ◌-◌, ◌%◌, ◌<◌, ◌≤◌, true, false, List, [], ◌∷◌, Option, none, some, ◌≡◌, refl,
  ◌↔◌, inl, inr, arith, get_or, leb, ltb, if◌then◌else◌, All, subst, ap, ◌∙◌, Option-cases,
  Bool-cases, dec_lt, leb→le, le→leb,
}
use nano_rpc_gateway.Prelude.Result.{Result, ok, err}
use nano_rpc_gateway.Json.{Value}
use nano_rpc_gateway.Error.{GatewayError, node_rate_limited}
use nano_rpc_gateway.Upstream.Router.{NativeRouter, size, active_index, mark_unhealthy, Outcome}
use nano_rpc_gateway.Upstream.Router.Reference.{
  rotation, healthy, candidates, unavailable, decide, reference_from,
}
use nano_rpc_gateway.Upstream.Router.Invariant.{IsWellFormed, rotation-InPool}

-- The rotation reaches the index of each of its rounds.
mem-rotation :
    (n start left offset k : ℕ)
    → k < left
    → Memᴰ ((start + (offset + k)) % n) (rotation n start left offset)
unfolding rotation
mem-rotation n start zero offset k h = elim h [ ]
mem-rotation n start (suc left) offset zero h = Memᴰ.head (ap (λ t. (start + t) % n) (omega arith))
mem-rotation n start (suc left) offset (suc k) h = Memᴰ.tail (
    subst (λ t. Memᴰ ((start + t) % n) (rotation n start left (suc offset))) (omega arith)
      (mem-rotation n start left (suc offset) k (omega arith)))

mod_add_self : (n i : ℕ) → i < n → (i + n) % n ≡ i
mod_add_self n i h =
    let past : n ≤ i + n = omega arith in
    let back : i + n - n ≡ i = omega arith in
    mod-eq-sub-mod past ∙ (ap (λ t. t % n) back ∙ mod-eq_of_lt h)

-- The round at which the index `i` is reached.
round : ℕ → ℕ → ℕ → ℕ
round n start i = if ltb i start then i + n - start else i - start

round_lem :
    (n start i : ℕ)
    → start < n
    → i < n
    → (round n start i < n) × ((start + (0 + round n start i)) % n ≡ i)
unfolding round
round_lem n start i s h = elim (dec_lt i start) [
  | yes before ↦
      let test : ltb i start ≡ true = ground arith in
      let there : start + (0 + (i + n - start)) ≡ i + n = omega arith in
      rw test (omega arith, ap (λ t. t % n) there ∙ mod_add_self n i h)
  | no after ↦
      let test : ltb i start ≡ false = ground arith in
      let there : start + (0 + (i - start)) ≡ i = omega arith in
      rw test (omega arith, ap (λ t. t % n) there ∙ mod-eq_of_lt h)
]

-- So it reaches every index of the pool.
mem-rotation_all : (n start i : ℕ) → start < n → i < n → Memᴰ i (rotation n start n 0)
mem-rotation_all n start i s h =
    let (small, reach) = round_lem n start i s h in
    subst (λ t. Memᴰ t (rotation n start n 0)) reach
      (mem-rotation n start n 0 (round n start i) small)

mem-healthy_of_le :
    (now : ℕ) (unhealthy is : List ℕ) (i : ℕ)
    → Memᴰ i is
    → get_or unhealthy i 0 ≤ now
    → Memᴰ i (healthy now unhealthy is)
unfolding healthy
mem-healthy_of_le now unhealthy [] i m h = elim m [ ]
mem-healthy_of_le now unhealthy (j ∷ js) i (Memᴰ.head e) h =
    let ready : leb (get_or unhealthy j 0) now ≡ true = rw (← e) (le→leb _ _ h) in
    rw ready (Memᴰ.head e)
mem-healthy_of_le now unhealthy (j ∷ js) i (Memᴰ.tail m) h =
    elim (Bool-cases (leb (get_or unhealthy j 0) now)) [
      | inl ready ↦ rw ready (Memᴰ.tail (mem-healthy_of_le now unhealthy js i m h))
      | inr cooling ↦ rw cooling (mem-healthy_of_le now unhealthy js i m h)
    ]

le_of_mem-healthy :
    (now : ℕ) (unhealthy is : List ℕ) (i : ℕ)
    → Memᴰ i (healthy now unhealthy is)
    → Memᴰ i is × (get_or unhealthy i 0 ≤ now)
unfolding healthy
le_of_mem-healthy now unhealthy [] i m = elim m [ ]
le_of_mem-healthy now unhealthy (j ∷ js) i m = elim (Bool-cases (leb (get_or unhealthy j 0) now)) [
  | inl ready ↦ elim (Memᴰ.cases_cons (rw ready at m)) [
    | inl e ↦ (Memᴰ.head e, rw e (leb→le _ _ ready))
    | inr later ↦
        let (listed, h) = le_of_mem-healthy now unhealthy js i later in (Memᴰ.tail listed, h)
  ]
  | inr cooling ↦
      let (listed, h) = le_of_mem-healthy now unhealthy js i (rw cooling at m) in
      (Memᴰ.tail listed, h)
]

in_pool_of_mem : (n : ℕ) (is : List ℕ) (i : ℕ) → All (λ j. j < n) is → Memᴰ i is → i < n
in_pool_of_mem n [] i h m = elim m [ ]
in_pool_of_mem n (j ∷ js) i h (Memᴰ.head e) = rw e h.0
in_pool_of_mem n (j ∷ js) i h (Memᴰ.tail m) = in_pool_of_mem n js i h.1 m

-- The candidates of a call are the upstreams whose cooldown is over.
pub mem-candidates_iff :
    (now : ℕ) (r : NativeRouter) (i : ℕ)
    → IsWellFormed r
    → Memᴰ i (candidates now r) ↔ ((i < size r) × (get_or r.unhealthy_until i 0 ≤ now))
unfolding candidates active_index
mem-candidates_iff now r i w = (
  λ m.
      let (listed, h) = le_of_mem-healthy now r.unhealthy_until _ i m in
      (
        in_pool_of_mem (size r) _ i
            (rotation-InPool (size r) (active_index r) (size r) 0 w.not_empty) listed,
        h,
      ),
  λ h.
      mem-healthy_of_le now r.unhealthy_until _ i
        (mem-rotation_all (size r) _ i (mod-lt r.active w.not_empty) h.0) h.1,
)

module _ (answer : ℕ → Result GatewayError Value) (clock : ℕ → ℕ) where
  -- The answer of an upstream that was asked, and that stands as the call's result.
  pub record Decided (is : List ℕ) (out : Outcome) : Type 0 where
    pub index : ℕ
    pub asked : Memᴰ index is
    pub stands : out.0 ≡ answer index
    pub decisive : unavailable (answer index) ≡ none

  -- Some upstream that is asked does not turn out unavailable: the call has the answer of one such.
  pub reference_from-Decided :
      (is : List ℕ) (last : Option GatewayError) (r : NativeRouter) (i : ℕ)
      → Memᴰ i is
      → unavailable (answer i) ≡ none
      → Decided is (reference_from answer clock is last r)
  unfolding reference_from
  reference_from-Decided [] last r i m h = elim m [ ]
  reference_from-Decided (j ∷ js) last r i m h = elim (Option-cases (unavailable (answer j))) [
    | inl stops ↦ record {
      index = j;
      asked = Memᴰ.head refl;
      stands = rw stops (decide-result (answer j) j r);
      decisive = stops;
    }
    | inr (e, passed) ↦ elim (Memᴰ.cases_cons m) [
      | inl same ↦ cc (h, passed, ap (λ k. unavailable (answer k)) same)
      | inr later ↦
          let rest = reference_from-Decided js (some e) (mark_unhealthy (clock j) j r) i later h in
          record {
            index = rest.index;
            asked = Memᴰ.tail rest.asked;
            stands = rw passed rest.stands;
            decisive = rest.decisive;
          }
    ]
  ]
    where
      decide-result :
          (a : Result GatewayError Value) (k : ℕ) (q : NativeRouter)
          → (decide answer clock a k q).0 ≡ a
      decide-result (ok v) k q = refl
      decide-result (err (node_rate_limited _)) k q = refl
      decide-result (err _) k q = refl
