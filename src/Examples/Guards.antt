-- ===== src/Examples/Guards.antt =====
-- The guards of `block_confirm`.
use nano_rpc_gateway.Prelude.{
  ◌≢◌, eq_iff, String, ℕ, ◌+◌, ◌-◌, ◌*◌, ◌≤◌, true, false, List, [], ◌∷◌, ◌≡◌, refl, arith,
}
use nano_rpc_gateway.Prelude.Result.{err, is_ok}
use nano_rpc_gateway.Rpc.{TransportRejection, rate_limited}
use nano_rpc_gateway.Guards.{
  ConfirmGuards, one, burst, new, refilled, wait, reserve, evict, drop_old, drop_over,
  check_cooldown, record_accepted,
}
use nano_rpc_gateway.Guards.Rate.{InBurst, Ascending, passed, last_of, passed-le}
use nano_rpc_gateway.Guards.Cooldown.{Ordered, RunOut}
use nano_rpc_gateway.Guards.Operations.{Operation, reserved, checked, recorded, operate_all}
use nano_rpc_gateway.Guards.Recent.{check_cooldown-operate_all}

abbrev full : ConfirmGuards
full = record { tokens = 4_000_000_000; last_refill = 0; cooldown = [] }

-- Six calls at once, of which four pass.
abbrev six : List ℕ
six = 0 ∷ 0 ∷ 0 ∷ 0 ∷ 0 ∷ 0 ∷ []

six-passed : passed six full ≡ 4
unfolding passed reserve refilled
six-passed = refl

full-new : new 0 ≡ full
unfolding new
full-new = refl

six-Ascending : Ascending full.last_refill six
six-Ascending =
    (omega arith, (omega arith, (omega arith, (omega arith, (omega arith, (omega arith, tt))))))

full-InBurst : InBurst full
full-InBurst = omega arith

passed-le_example :
    passed six full * one ≤ burst + (last_of full.last_refill six - full.last_refill)
passed-le_example = passed-le six full full-InBurst six-Ascending

abbrev drained : ConfirmGuards
drained = record { tokens = 100; last_refill = 0; cooldown = [] }

abbrev rejected : TransportRejection
rejected = rate_limited "block_confirm rate limit exceeded" 1

drained-reserve : reserve 0 drained ≡ (err rejected, drained)
unfolding reserve refilled wait
drained-reserve = refl

full_free : is_ok (check_cooldown 0 "AB" full).0 ≡ true
unfolding check_cooldown evict drop_old drop_over
full_free = refl

-- While the first acceptance is on its way a call for another hash is accepted, and so is one after.
abbrev meanwhile : List Operation
meanwhile = checked 1 "AB" ∷ recorded 2 "CD" ∷ []

abbrev afterwards : List Operation
afterwards = reserved 6 ∷ recorded 7 "EF" ∷ []

abbrev ab : String
ab = "AB"

abbrev cd : String
cd = "CD"

cd-Spares : cd ≢ ab
cd-Spares e = cc ((eq_iff cd ab).1 e)

check_cooldown-operate_all_example :
    is_ok
      (check_cooldown 60_000_000_004 "AB" (
        operate_all afterwards
          (record_accepted 5 "AB" (operate_all meanwhile (check_cooldown 0 "AB" full).1)))).0
    ≡ false
check_cooldown-operate_all_example =
    check_cooldown-operate_all 0 5 60_000_000_004 "AB" full meanwhile afterwards full_free
      (tt, (cd-Spares, tt)) (omega arith, (omega arith, tt)) (omega arith) (omega arith)

abbrev confirmed : ConfirmGuards
confirmed = record { tokens = 0; last_refill = 5; cooldown = ("AB", 5) ∷ [] }

confirmed-Ordered : Ordered 60_000_000_005 confirmed.cooldown
confirmed-Ordered = ground arith

confirmed-RunOut : RunOut 60_000_000_005 "AB" confirmed.cooldown
confirmed-RunOut = (λ same. omega arith, tt)
