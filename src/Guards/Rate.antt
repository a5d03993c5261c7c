-- ===== src/Guards/Rate.antt =====
-- The token bucket: how many calls pass in a stretch of time, and how long a refused one waits.
use nano_rpc_gateway.Prelude.{
  ℕ, suc, ◌+◌, ◌-◌, ◌*◌, ◌≤◌, List, [], ◌∷◌, ◌≡◌, arith, subst, sym, some, true,
}
use nano_rpc_gateway.Prelude.Result.{Result, ok, err, is_ok}
use nano_rpc_gateway.Rpc.{TransportRejection}
use nano_rpc_gateway.Guards.{ConfirmGuards, one, burst, wait, reserve}

-- The bucket never holds more than its burst.
abbrev pub InBurst : ConfirmGuards → Type 0
InBurst g = g.tokens ≤ burst

abbrev pub cost : Result TransportRejection (Unit {0}) → ℕ
cost (ok _) = one
cost (err _) = 0

-- One more call, if it passes.
abbrev pub tally : Result TransportRejection (Unit {0}) → ℕ → ℕ
tally (ok _) n = suc n
tally (err _) n = n

-- Reservations at a sequence of instants: how many pass.
unfoldable pub passed : List ℕ → ConfirmGuards → ℕ
passed [] g = 0
passed (now ∷ later) g = tally (reserve now g).0 (passed later (reserve now g).1)

-- The instants do not go back, from the last refill on.
abbrev pub Ascending : ℕ → List ℕ → Type 0
Ascending t [] = Unit {0}
Ascending t (now ∷ later) = (t ≤ now) × Ascending now later

abbrev pub last_of : ℕ → List ℕ → ℕ
last_of t [] = t
last_of t (now ∷ later) = last_of now later

last_of-le : (t : ℕ) (times : List ℕ) → Ascending t times → t ≤ last_of t times
last_of-le t [] h = omega arith
last_of-le t (now ∷ later) h = omega (arith, last_of-le now later h.1)

tally-cost : (r : Result TransportRejection (Unit {0})) (n : ℕ) → tally r n * one ≡ n * one + cost r
tally-cost (ok _) n = omega arith
tally-cost (err _) n = omega arith

reserve-cost :
    (now : ℕ) (g : ConfirmGuards)
    → cost (reserve now g).0 + (reserve now g).1.tokens ≤ g.tokens + (now - g.last_refill)
unfolding reserve
reserve-cost now g = ground arith

reserve-last_refill : (now : ℕ) (g : ConfirmGuards) → (reserve now g).1.last_refill ≡ now
unfolding reserve
reserve-last_refill now g = ground arith

passed-le_tokens :
    (times : List ℕ) (g : ConfirmGuards)
    → Ascending g.last_refill times
    → passed times g * one ≤ g.tokens + (last_of g.last_refill times - g.last_refill)
unfolding passed
passed-le_tokens [] g h = omega arith
passed-le_tokens (now ∷ later) g h =
    let next = (reserve now g).1 in
    let at = reserve-last_refill now g in
    let rest = passed-le_tokens later next (subst (λ t. Ascending t later) (sym at) h.1) in
    let rest' =
      subst (λ t. passed later next * one ≤ next.tokens + (last_of t later - t)) at rest in
    omega (
      arith,
      h.0,
      rest',
      reserve-cost now g,
      tally-cost (reserve now g).0 (passed later next),
      last_of-le now later h.1,
    )

-- Of any run of reservations, at instants that do not go back, at most 4 plus one for each second
-- that goes by pass.
pub passed-le :
    (times : List ℕ) (g : ConfirmGuards)
    → InBurst g
    → Ascending g.last_refill times
    → passed times g * one ≤ burst + (last_of g.last_refill times - g.last_refill)
passed-le times g b h = omega (arith, passed-le_tokens times g h)

-- A bucket stays within its burst.
pub reserve-InBurst : (now : ℕ) (g : ConfirmGuards) → InBurst g → InBurst (reserve now g).1
unfolding reserve
reserve-InBurst now g h = ground arith

-- A refused call is told to wait one second, and a reservation made when that time is over, with
-- none between, passes.
pub reserve-retry :
    (now later : ℕ) (g after : ConfirmGuards) (rejection : TransportRejection)
    → reserve now g ≡ (err rejection, after)
    → now + one ≤ later
    → (rejection.status ≡ 429)
      × (rejection.retry_after ≡ some 1)
      × (is_ok (reserve later after).0 ≡ true)
unfolding reserve wait
reserve-retry now later g after rejection h k = ground arith
