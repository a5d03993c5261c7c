-- ===== src/Guards/Recent.antt =====
-- How long an accepted hash is refused, whatever else the guards do meanwhile.
use mathlib.Core.List.{append_assoc}
use nano_rpc_gateway.Prelude.{
  ℕ, ◌+◌, ◌-◌, ◌≤◌, ◌<◌, List, [], ◌∷◌, ◌++◌, ◌≡◌, refl, arith, Bool-cases, inl, inr, leb, ltb,
  String, true, false, length, length-append, eq_refl, All, ap, sym, ◌∙◌, subst, not,
}
use nano_rpc_gateway.Prelude.Result.{is_ok}
use nano_rpc_gateway.Guards.Operations.{
  Operation, reserved, checked, recorded, operate, operate_all, instant, Spares, entries_of,
  recordings, reserve-cooldown, check_cooldown-cooldown, is_seen-evict, is_seen-operate_all,
  not-true, is_ok-check_cooldown,
}
use nano_rpc_gateway.Guards.{
  ConfirmGuards, cooldown_ttl, cooldown_capacity, drop_old, drop_over, evict, is_seen,
  check_cooldown, record_accepted,
}
use nano_rpc_gateway.Guards.Cooldown.{Entries}

-- The entry of the hash stands in the cache, before at most `n` others.
pub record Stands (n : ℕ) (hash : String) (t : ℕ) (es : Entries) : Type 0 where
  pub front : Entries
  pub back : Entries
  pub parts : es ≡ front ++ (hash, t) ∷ back
  pub few : length back ≤ n

is_seen-front :
    (hash : String) (t : ℕ) (front back : Entries) → is_seen hash (front ++ (hash, t) ∷ back) ≡ true
is_seen-front hash t [] back = ground (arith, eq_refl hash)
is_seen-front hash t (e ∷ es) back = ground (arith, is_seen-front hash t es back)

Stands-seen :
    (n : ℕ) (hash : String) (t : ℕ) (es : Entries) → Stands n hash t es → is_seen hash es ≡ true
Stands-seen n hash t es s = rw s.parts (is_seen-front hash t s.front s.back)

drop_old-front :
    (now t : ℕ) (hash : String) (es back : Entries)
    → now < t + cooldown_ttl
    → (front : Entries) × (drop_old now (es ++ (hash, t) ∷ back) ≡ front ++ (hash, t) ∷ back)
unfolding drop_old
drop_old-front now t hash [] back h = ([], ground arith)
drop_old-front now t hash ((k, s) ∷ es) back h =
    let (front, e) = drop_old-front now t hash es back h in
    elim (Bool-cases (leb cooldown_ttl (now - s))) [
      | inl old ↦ (front, rw old e)
      | inr young ↦ ((k, s) ∷ es, rw young)
    ]

drop_over-front :
    (t : ℕ) (hash : String) (es back : Entries)
    → length back < cooldown_capacity
    → (front : Entries) × (drop_over (es ++ (hash, t) ∷ back) ≡ front ++ (hash, t) ∷ back)
unfolding drop_over
drop_over-front t hash [] back h = ([], ground arith)
drop_over-front t hash (x ∷ es) back h =
    let (front, e) = drop_over-front t hash es back h in
    elim (Bool-cases (ltb cooldown_capacity (length (x ∷ es ++ (hash, t) ∷ back)))) [
      | inl over ↦ (front, rw over e)
      | inr fits ↦ (x ∷ es, rw fits)
    ]

Stands-evict :
    (n now t : ℕ) (hash : String) (es : Entries)
    → now < t + cooldown_ttl
    → n < cooldown_capacity
    → Stands n hash t es
    → Stands n hash t (evict now es)
unfolding evict
Stands-evict n now t hash es young small s =
    let (front, e) = drop_old-front now t hash s.front s.back young in
    let few = s.few in
    let (front', e') = drop_over-front t hash front s.back (omega arith) in
    record {
      front = front';
      back = s.back;
      parts = ap (λ l. drop_over (drop_old now l)) s.parts ∙ ap drop_over e ∙ e';
      few = s.few;
    }

Stands-push :
    (n now t : ℕ) (hash other : String) (es : Entries)
    → Stands n hash t es
    → Stands (n + 1) hash t (es ++ (other, now) ∷ [])
Stands-push n now t hash other es s =
    let few = s.few in
    record {
      front = s.front;
      back = s.back ++ (other, now) ∷ [];
      parts =
          ap (λ l. l ++ (other, now) ∷ []) s.parts
          ∙ append_assoc s.front ((hash, t) ∷ s.back) ((other, now) ∷ []);
      few = omega (arith, length-append s.back ((other, now) ∷ []));
    }

Stands-weaken :
    (n m t : ℕ) (hash : String) (es : Entries) → n ≤ m → Stands n hash t es → Stands m hash t es
Stands-weaken n m t hash es h s =
    let few = s.few in record { front = s.front; back = s.back; parts = s.parts; few = omega arith }

Stands-operate :
    (n t : ℕ) (hash : String) (o : Operation) (g : ConfirmGuards)
    → instant o < t + cooldown_ttl
    → n < cooldown_capacity
    → Stands n hash t g.cooldown
    → Stands (n + entries_of o) hash t (operate o g).cooldown
unfolding record_accepted
Stands-operate n t hash (reserved now) g young small s =
    subst (Stands (n + 0) hash t) (sym (reserve-cooldown now g))
      (Stands-weaken n (n + 0) t hash g.cooldown (omega arith) s)
Stands-operate n t hash (checked now other) g young small s =
    subst (Stands (n + 0) hash t) (sym (check_cooldown-cooldown now other g)) (
      Stands-weaken n (n + 0) t hash (evict now g.cooldown) (omega arith)
        (Stands-evict n now t hash g.cooldown young small s))
Stands-operate n t hash (recorded now other) g young small s =
    let kept = Stands-evict n now t hash g.cooldown young small s in
    elim (Bool-cases (is_seen other (evict now g.cooldown))) [
      | inl seen ↦
          rw seen (Stands-weaken n (n + 1) t hash (evict now g.cooldown) (omega arith) kept)
      | inr new ↦ rw new (Stands-push n now t hash other (evict now g.cooldown) kept)
    ]

Stands-operate_all :
    (n t : ℕ) (hash : String) (os : List Operation) (g : ConfirmGuards)
    → All (λ o. instant o < t + cooldown_ttl) os
    → n + recordings os < cooldown_capacity
    → Stands n hash t g.cooldown
    → Stands (n + recordings os) hash t (operate_all os g).cooldown
unfolding operate_all
Stands-operate_all n t hash [] g young small s =
    Stands-weaken n (n + 0) t hash g.cooldown (omega arith) s
Stands-operate_all n t hash (o ∷ os) g young small s =
    let first = Stands-operate n t hash o g young.0 (omega (arith, small)) s in
    let after = operate_all os (operate o g) in
    Stands-weaken (n + entries_of o + recordings os) (n + (entries_of o + recordings os)) t hash
      after.cooldown (omega arith)
      (Stands-operate_all (n + entries_of o) t hash os (operate o g) young.1 (omega (arith, small))
        first)

Stands-record_accepted :
    (now : ℕ) (hash : String) (g : ConfirmGuards)
    → is_seen hash g.cooldown ≡ false
    → Stands 0 hash now (record_accepted now hash g).cooldown
unfolding record_accepted
Stands-record_accepted now hash g unseen =
    rw (is_seen-evict now hash g.cooldown unseen)
      (record { front = evict now g.cooldown; back = []; parts = refl; few = omega arith })

-- A hash that is let through at one instant, and accepted at another after whatever the guards did in
-- between, none of which recorded it, is refused at every instant less than 60 seconds after the
-- acceptance, whatever the guards do meanwhile at such instants, as long as fewer than 1024 other
-- acceptances are recorded, which would push it out of the cache.
pub check_cooldown-operate_all :
    (asked accepted later : ℕ) (hash : String) (g : ConfirmGuards) (between after : List Operation)
    → is_ok (check_cooldown asked hash g).0 ≡ true
    → All (Spares hash) between
    → All (λ o. instant o < accepted + 60_000_000_000) after
    → recordings after < 1024
    → later < accepted + 60_000_000_000
    → is_ok
        (check_cooldown later hash (
          operate_all after (
            record_accepted accepted hash (operate_all between (check_cooldown asked hash g).1)))).0
      ≡ false
check_cooldown-operate_all asked accepted later hash g between after free spares young few h =
    let let_through = (check_cooldown asked hash g).1 in
    let unseen : is_seen hash let_through.cooldown ≡ false =
      ap (is_seen hash) (check_cooldown-cooldown asked hash g)
      ∙ not-true (is_seen hash (evict asked g.cooldown))
          (sym (is_ok-check_cooldown asked hash g) ∙ free) in
    let waiting = operate_all between let_through in
    let taken = record_accepted accepted hash waiting in
    let stands = Stands-operate_all 0 accepted hash after taken young (omega (arith, few)) (
      Stands-record_accepted accepted hash waiting
        (is_seen-operate_all hash between let_through spares unseen)) in
    let last =
      Stands-evict (0 + recordings after) later accepted hash (operate_all after taken).cooldown h
        (omega (arith, few)) stands in
    is_ok-check_cooldown later hash (operate_all after taken)
    ∙ ap not (
        Stands-seen (0 + recordings after) hash accepted
          (evict later (operate_all after taken).cooldown) last)
