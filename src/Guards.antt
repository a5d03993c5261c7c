-- ===== src/Guards.antt =====
-- `ConfirmGuards` and `is_block_hash` of src/lib.rs: the bounds on `block_confirm`. Instants are
-- nanoseconds. The bucket refills at 1.0 tokens a second, so it is counted in billionths of a
-- token and a nanosecond adds one of them; the rounding of doubles is left out. Each method reads
-- the clock once, and its argument `now` is that reading.
pub mod Rate
pub mod Cooldown
pub mod Operations
pub mod Recent
use Prim.Native.String.{len}
use text.Mathlib.Text.{◌==◌ as str_eq}
use nano_rpc_gateway.Prelude.{
  ℕ, ◌+◌, ◌-◌, ◌*◌, ◌/◌, min, max, String, Bool, true, false, ◌&&◌, List, [], ◌∷◌, ◌++◌, Option,
  length, any, all, leb, ltb, ◌==◌, if◌then◌else◌,
}
use nano_rpc_gateway.Prelude.Text.{codes, is_ascii_hexdigit}
use nano_rpc_gateway.Prelude.Result.{Result, ok, err}
use nano_rpc_gateway.Rpc.{TransportRejection, rate_limited}

pub record ConfirmGuards : Type 0 where
  pub tokens : ℕ
  pub last_refill : ℕ
  pub cooldown : List (String × ℕ)

-- One token, which is also one second.
abbrev pub one : ℕ
one = 1_000_000_000

-- 4.0 tokens.
abbrev pub burst : ℕ
burst = 4_000_000_000

-- 60 seconds.
abbrev pub cooldown_ttl : ℕ
cooldown_ttl = 60_000_000_000

abbrev pub cooldown_capacity : ℕ
cooldown_capacity = 1024

unfoldable pub new : ℕ → ConfirmGuards
new now = record { tokens = burst; last_refill = now; cooldown = [] }

-- What the bucket holds at an instant. `duration_since` is 0 for an instant that lies ahead.
unfoldable pub refilled : ℕ → ConfirmGuards → ℕ
refilled now g = min (g.tokens + (now - g.last_refill)) burst

-- `(deficit / rate).ceil().max(1.0)`, in seconds.
unfoldable pub wait : ℕ → ℕ
wait tokens = max ((one - tokens + (one - 1)) / one) 1

unfoldable pub reserve : ℕ → ConfirmGuards → Result TransportRejection (Unit {0}) × ConfirmGuards
unfolding refilled
reserve now g =
    let tokens = refilled now g in
    if leb one tokens then (ok tt, record g { tokens = tokens - one; last_refill = now }) else (
      err (rate_limited "block_confirm rate limit exceeded" (wait tokens)),
      record g { tokens = tokens; last_refill = now },
    )

-- The first loop of `evict`: the entries at the front whose time is over.
unfoldable pub drop_old : ℕ → List (String × ℕ) → List (String × ℕ)
drop_old now [] = []
drop_old now ((hash, seen) ∷ rest) =
    let later = drop_old now rest in
    if leb cooldown_ttl (now - seen) then later else (hash, seen) ∷ rest

-- The second loop: the entries at the front beyond the capacity.
unfoldable pub drop_over : List (String × ℕ) → List (String × ℕ)
drop_over [] = []
drop_over (entry ∷ rest) =
    let later = drop_over rest in
    if ltb cooldown_capacity (length (entry ∷ rest)) then later else entry ∷ rest

unfoldable pub evict : ℕ → List (String × ℕ) → List (String × ℕ)
evict now entries = drop_over (drop_old now entries)

-- `iter().any(|(seen, _)| seen == hash)`
abbrev pub is_seen : String → List (String × ℕ) → Bool
is_seen hash = any (λ entry. str_eq (entry.0) hash)

unfoldable pub check_cooldown :
    ℕ → String → ConfirmGuards → Result TransportRejection (Unit {0}) × ConfirmGuards
check_cooldown now hash g =
    let kept = evict now g.cooldown in
    if is_seen hash kept
    then (
      err (
          rate_limited "block_confirm cooldown for this block hash is still active"
            (cooldown_ttl / one)),
      record g { cooldown = kept },
    )
    else (ok tt, record g { cooldown = kept })

unfoldable pub record_accepted : ℕ → String → ConfirmGuards → ConfirmGuards
record_accepted now hash g =
    let kept = evict now g.cooldown in
    if is_seen hash kept
    then record g { cooldown = kept }
    else record g { cooldown = kept ++ (hash, now) ∷ [] }

unfoldable pub is_block_hash : String → Bool
is_block_hash value = len value == 64 && all is_ascii_hexdigit (codes value)
