-- ===== src/Guards/Operations.antt =====
-- What requests do to the guards, one after another, and what that leaves of the cache of hashes.
use nano_rpc_gateway.Prelude.{
  ℕ, ◌+◌, List, [], ◌∷◌, ◌++◌, ◌≡◌, ◌≢◌, refl, arith, Bool-cases, inl, inr, leb, String, true,
  false, eq_iff, All, ap, ◌∙◌, Bool, not,
}
use nano_rpc_gateway.Prelude.Result.{is_ok}
use nano_rpc_gateway.Guards.{
  ConfirmGuards, one, refilled, drop_old, evict, is_seen, reserve, check_cooldown, record_accepted,
}
use nano_rpc_gateway.Guards.Cooldown.{Entries, is_seen-drop_over}

-- What a request does to the guards, each at the instant that it reads.
pub data Operation : Type 0 where
  reserved : ℕ → Operation
  checked : ℕ → String → Operation
  recorded : ℕ → String → Operation

abbrev pub operate : Operation → ConfirmGuards → ConfirmGuards
operate (reserved now) g = (reserve now g).1
operate (checked now hash) g = (check_cooldown now hash g).1
operate (recorded now hash) g = record_accepted now hash g

unfoldable pub operate_all : List Operation → ConfirmGuards → ConfirmGuards
unfolding reserve check_cooldown record_accepted
operate_all [] g = g
operate_all (o ∷ os) g = operate_all os (operate o g)

abbrev pub instant : Operation → ℕ
instant (reserved now) = now
instant (checked now hash) = now
instant (recorded now hash) = now

-- The operation records no entry for the hash.
abbrev pub Spares : String → Operation → Type 0
Spares hash (recorded now other) = other ≢ hash
Spares hash _ = Unit

abbrev pub entries_of : Operation → ℕ
entries_of (recorded now hash) = 1
entries_of _ = 0

-- How many acceptances are recorded.
abbrev pub recordings : List Operation → ℕ
recordings [] = 0
recordings (o ∷ os) = entries_of o + recordings os

pub reserve-cooldown : (now : ℕ) (g : ConfirmGuards) → (reserve now g).1.cooldown ≡ g.cooldown
unfolding reserve
reserve-cooldown now g = elim (Bool-cases (leb one (refilled now g))) [
  | inl enough ↦ rw enough refl
  | inr short ↦ rw short refl
]

pub check_cooldown-cooldown :
    (now : ℕ) (hash : String) (g : ConfirmGuards)
    → (check_cooldown now hash g).1.cooldown ≡ evict now g.cooldown
unfolding check_cooldown
check_cooldown-cooldown now hash g = elim (Bool-cases (is_seen hash (evict now g.cooldown))) [
  | inl seen ↦ rw seen refl
  | inr new ↦ rw new refl
]

is_seen-drop_old-false :
    (now : ℕ) (hash : String) (es : Entries)
    → is_seen hash es ≡ false
    → is_seen hash (drop_old now es) ≡ false
unfolding drop_old
is_seen-drop_old-false now hash [] h = refl
is_seen-drop_old-false now hash (e ∷ es) h = ground (arith, is_seen-drop_old-false now hash es)

pub is_seen-evict :
    (now : ℕ) (hash : String) (es : Entries)
    → is_seen hash es ≡ false
    → is_seen hash (evict now es) ≡ false
unfolding evict
is_seen-evict now hash es h =
    is_seen-drop_over hash (drop_old now es) (is_seen-drop_old-false now hash es h)

is_seen-push :
    (hash other : String) (now : ℕ) (es : Entries)
    → other ≢ hash
    → is_seen hash es ≡ false
    → is_seen hash (es ++ (other, now) ∷ []) ≡ false
is_seen-push hash other now [] differ h = ground (arith, eq_iff other hash)
is_seen-push hash other now (e ∷ es) differ h =
    ground (arith, is_seen-push hash other now es differ)

is_seen-operate :
    (hash : String) (o : Operation) (g : ConfirmGuards)
    → Spares hash o
    → is_seen hash g.cooldown ≡ false
    → is_seen hash (operate o g).cooldown ≡ false
unfolding record_accepted
is_seen-operate hash (reserved now) g spares h = ap (is_seen hash) (reserve-cooldown now g) ∙ h
is_seen-operate hash (checked now other) g spares h =
    ap (is_seen hash) (check_cooldown-cooldown now other g) ∙ is_seen-evict now hash g.cooldown h
is_seen-operate hash (recorded now other) g spares h =
    let kept = evict now g.cooldown in
    let unseen = is_seen-evict now hash g.cooldown h in
    elim (Bool-cases (is_seen other kept)) [
      | inl seen ↦ rw seen unseen
      | inr new ↦ rw new (is_seen-push hash other now kept spares unseen)
    ]

pub is_seen-operate_all :
    (hash : String) (os : List Operation) (g : ConfirmGuards)
    → All (Spares hash) os
    → is_seen hash g.cooldown ≡ false
    → is_seen hash (operate_all os g).cooldown ≡ false
unfolding operate_all
is_seen-operate_all hash [] g spares h = h
is_seen-operate_all hash (o ∷ os) g spares h =
    is_seen-operate_all hash os (operate o g) spares.1 (is_seen-operate hash o g spares.0 h)

pub not-true : (b : Bool) → not b ≡ true → b ≡ false
not-true true h = cc
not-true false h = refl

pub is_ok-check_cooldown :
    (now : ℕ) (hash : String) (g : ConfirmGuards)
    → is_ok (check_cooldown now hash g).0 ≡ not (is_seen hash (evict now g.cooldown))
unfolding check_cooldown
is_ok-check_cooldown now hash g = elim (Bool-cases (is_seen hash (evict now g.cooldown))) [
  | inl seen ↦ rw seen refl
  | inr new ↦ rw new refl
]
