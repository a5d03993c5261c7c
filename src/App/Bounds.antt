-- ===== src/App/Bounds.antt =====
-- The bounds of the guards of `block_confirm`.
use text.Mathlib.Text.{◌==◌ as str_eq}
use nano_rpc_gateway.Prelude.{
  Bool-cases, inl, inr, ℕ, ◌≤◌, ◌+◌, String, Option, none, some, arith, length,
}
use nano_rpc_gateway.Prelude.Result.{Result, ok, err}
use nano_rpc_gateway.Json.{Value, member_str}
use nano_rpc_gateway.Rpc.{TransportRejection}
use nano_rpc_gateway.Guards.{
  ConfirmGuards, cooldown_capacity, reserve, check_cooldown, record_accepted, is_block_hash,
}
use nano_rpc_gateway.Guards.Rate.{InBurst, reserve-InBurst}
use nano_rpc_gateway.Guards.Cooldown.{length-record_accepted, length-evict}
use nano_rpc_gateway.App.{World}
use nano_rpc_gateway.App.Dispatch.{guard, guard_hash, then_cooldown}

-- The bucket is within its burst, and the cache holds one entry beyond its capacity at most.
pub record IsBounded (g : ConfirmGuards) : Type 0 where
  pub bucket : InBurst g
  pub cache : length g.cooldown ≤ cooldown_capacity + 1

reserve-cache :
    (now : ℕ) (g : ConfirmGuards)
    → length g.cooldown ≤ cooldown_capacity + 1
    → length (reserve now g).1.cooldown ≤ cooldown_capacity + 1
unfolding reserve
reserve-cache now g h = ground arith

reserve-IsBounded : (now : ℕ) (g : ConfirmGuards) → IsBounded g → IsBounded (reserve now g).1
reserve-IsBounded now g h = record {
  bucket = reserve-InBurst now g h.bucket;
  cache = reserve-cache now g h.cache;
}

check_cooldown-IsBounded :
    (now : ℕ) (hash : String) (g : ConfirmGuards)
    → IsBounded g
    → IsBounded (check_cooldown now hash g).1
unfolding check_cooldown
check_cooldown-IsBounded now hash g h = record {
  bucket = let b = h.bucket in ground arith;
  cache = ground (arith, length-evict now g.cooldown);
}

record_accepted-InBurst :
    (now : ℕ) (hash : String) (g : ConfirmGuards) → InBurst g → InBurst (record_accepted now hash g)
unfolding record_accepted
record_accepted-InBurst now hash g h = ground arith

pub record_accepted-IsBounded :
    (now : ℕ) (hash : String) (g : ConfirmGuards)
    → IsBounded g
    → IsBounded (record_accepted now hash g)
record_accepted-IsBounded now hash g h = record {
  bucket = record_accepted-InBurst now hash g h.bucket;
  cache = length-record_accepted now hash g;
}

then_cooldown-IsBounded :
    (w : World) (hash : String) (c : Result TransportRejection (Unit {0}) × ConfirmGuards)
    → IsBounded c.1
    → IsBounded (then_cooldown w hash c).1
then_cooldown-IsBounded w hash (ok _, g) k = check_cooldown-IsBounded w.cooldown_at hash g k
then_cooldown-IsBounded w hash (err _, g) k = k

guard_hash-IsBounded :
    (w : World) (hash : Option String) (g : ConfirmGuards)
    → IsBounded g
    → IsBounded (guard_hash w hash g).1
guard_hash-IsBounded w none g h = h
guard_hash-IsBounded w (some hash) g h = elim (Bool-cases (is_block_hash hash)) [
  | inl fits ↦
      rw fits (
        then_cooldown-IsBounded w hash (reserve w.reserve_at g)
          (reserve-IsBounded w.reserve_at g h))
  | inr other ↦ rw other h
]

pub guard-IsBounded :
    (w : World) (method : String) (params : Value) (g : ConfirmGuards)
    → IsBounded g
    → IsBounded (guard w method params g).1
unfolding guard
guard-IsBounded w method params g h = elim (Bool-cases (str_eq method "block_confirm")) [
  | inl confirm ↦ rw confirm (guard_hash-IsBounded w (member_str params "hash") g h)
  | inr other ↦ rw other h
]
