-- ===== src/Guards/Cooldown.antt =====
-- The cooldown cache: its bound, when a recorded hash is refused, and when it is let through again.
use nano_rpc_gateway.Prelude.{
  ℕ, ◌+◌, ◌-◌, ◌≤◌, ◌<◌, List, [], ◌∷◌, ◌++◌, ◌≡◌, refl, arith, Bool-cases, inl, inr, leb, ltb,
  String, true, false, length, length-append, eq_iff, All, All-append,
}
use nano_rpc_gateway.Prelude.Result.{is_ok}
use nano_rpc_gateway.Guards.{
  ConfirmGuards, cooldown_ttl, cooldown_capacity, drop_old, drop_over, evict, is_seen,
  check_cooldown, record_accepted,
}

abbrev pub Entries : Type 0
Entries = List (String × ℕ)

length-drop_over : (es : Entries) → length (drop_over es) ≤ cooldown_capacity
unfolding drop_over
length-drop_over [] = omega arith
length-drop_over (e ∷ es) = ground (arith, length-drop_over es)

pub length-evict : (now : ℕ) (es : Entries) → length (evict now es) ≤ cooldown_capacity + 1
unfolding evict
length-evict now es = omega (arith, length-drop_over (drop_old now es))

-- Whatever was there before, the cache holds one entry beyond its capacity at most.
pub length-record_accepted :
    (now : ℕ) (hash : String) (g : ConfirmGuards)
    → length (record_accepted now hash g).cooldown ≤ cooldown_capacity + 1
unfolding record_accepted evict
length-record_accepted now hash g =
    let kept = drop_over (drop_old now g.cooldown) in
    ground
      (arith, length-drop_over (drop_old now g.cooldown), length-append kept ((hash, now) ∷ []))

-- The entries stand in the order of their instants, none of them after `now`.
abbrev pub Ordered : ℕ → Entries → Type 0
Ordered now [] = Unit {0}
Ordered now ((h, s) ∷ es) = (s ≤ now) × All (λ e. (s ≤ e.1) × (e.1 ≤ now)) es × Ordered now es

pub is_seen-drop_over :
    (hash : String) (es : Entries) → is_seen hash es ≡ false → is_seen hash (drop_over es) ≡ false
unfolding drop_over
is_seen-drop_over hash [] h = refl
is_seen-drop_over hash (e ∷ es) h = ground (arith, is_seen-drop_over hash es)

-- Every entry of this hash has run out.
abbrev pub RunOut : ℕ → String → Entries → Type 0
RunOut now hash es = All (λ e. e.0 ≡ hash → e.1 + cooldown_ttl ≤ now) es

unseen_of_young :
    (now s : ℕ) (hash : String) (es : Entries)
    → now < s + cooldown_ttl
    → All (λ e. (s ≤ e.1) × (e.1 ≤ now)) es
    → RunOut now hash es
    → is_seen hash es ≡ false
unseen_of_young now s hash [] y a r = refl
unseen_of_young now s hash ((k, t) ∷ es) y a r =
    ground (arith, eq_iff k hash, r.0, unseen_of_young now s hash es y a.1 r.1)

is_seen-drop_old :
    (now : ℕ) (hash : String) (es : Entries)
    → Ordered now es
    → RunOut now hash es
    → is_seen hash (drop_old now es) ≡ false
unfolding drop_old
is_seen-drop_old now hash [] o r = refl
is_seen-drop_old now hash ((k, t) ∷ es) o r =
    ground (arith, eq_iff k hash, r.0, unseen_of_young now t hash es, is_seen-drop_old now hash es)

-- When the time of a hash has run out it is let through again, for entries that stand in the order
-- of their instants.
pub check_cooldown_after :
    (now : ℕ) (hash : String) (g : ConfirmGuards)
    → Ordered now g.cooldown
    → RunOut now hash g.cooldown
    → is_ok (check_cooldown now hash g).0 ≡ true
unfolding check_cooldown evict
check_cooldown_after now hash g o r =
    rw (is_seen-drop_over hash (drop_old now g.cooldown) (is_seen-drop_old now hash g.cooldown o r))

later-All :
    (s before now : ℕ) (es : Entries)
    → before ≤ now
    → All (λ e. (s ≤ e.1) × (e.1 ≤ before)) es
    → All (λ e. (s ≤ e.1) × (e.1 ≤ now)) es
later-All s before now [] h a = tt
later-All s before now (e ∷ es) h a = ((a.0.0, omega arith), later-All s before now es h a.1)

Ordered-later : (before now : ℕ) (es : Entries) → before ≤ now → Ordered before es → Ordered now es
Ordered-later before now [] h o = tt
Ordered-later before now ((k, s) ∷ es) h (a, b, c) =
    (omega arith, later-All s before now es h b, Ordered-later before now es h c)

Ordered-drop_old : (now t : ℕ) (es : Entries) → Ordered now es → Ordered now (drop_old t es)
unfolding drop_old
Ordered-drop_old now t [] o = tt
Ordered-drop_old now t ((k, s) ∷ es) o = elim (Bool-cases (leb cooldown_ttl (t - s))) [
  | inl old ↦ rw old (Ordered-drop_old now t es o.2)
  | inr young ↦ rw young o
]

Ordered-drop_over : (now : ℕ) (es : Entries) → Ordered now es → Ordered now (drop_over es)
unfolding drop_over
Ordered-drop_over now [] o = tt
Ordered-drop_over now ((k, s) ∷ es) o =
    elim (Bool-cases (ltb cooldown_capacity (length ((k, s) ∷ es)))) [
      | inl over ↦ rw over (Ordered-drop_over now es o.2)
      | inr fits ↦ rw fits o
    ]

Ordered-push :
    (now : ℕ) (hash : String) (es : Entries) → Ordered now es → Ordered now (es ++ (hash, now) ∷ [])
Ordered-push now hash [] o = (omega arith, tt, tt)
Ordered-push now hash ((k, s) ∷ es) (a, b, c) =
    (a, All-append _ es _ b ((a, omega arith), tt), Ordered-push now hash es c)

-- Recording at instants that do not go back keeps the entries in order.
pub record_accepted-Ordered :
    (before now : ℕ) (hash : String) (g : ConfirmGuards)
    → before ≤ now
    → Ordered before g.cooldown
    → Ordered now (record_accepted now hash g).cooldown
unfolding record_accepted evict
record_accepted-Ordered before now hash g h o =
    let kept = drop_over (drop_old now g.cooldown) in
    let kept-Ordered : Ordered now kept =
      Ordered-drop_over now _
        (Ordered-drop_old now now g.cooldown (Ordered-later before now g.cooldown h o)) in
    elim (Bool-cases (is_seen hash kept)) [
      | inl seen ↦ rw seen kept-Ordered
      | inr new ↦ rw new (Ordered-push now hash kept kept-Ordered)
    ]
