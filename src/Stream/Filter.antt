-- ===== src/Stream/Filter.antt =====
-- Which events a subscription lets through.
use mathlib.Core.List.{Memᴰ}
use mathlib.Core.List.Memᴰ
use nano_rpc_gateway.Prelude.{
  String, Bool, true, List, [], ◌∷◌, Option, none, some, ◌≡◌, refl, ◌↔◌, ◌⊎◌, inl, inr, arith,
  eq_iff, any, Bool-cases, ◌||◌, subst,
}
use nano_rpc_gateway.Json.{member_str}
use nano_rpc_gateway.Validate.Params.Shapes.{OneOf, is_one_of_iff}
use nano_rpc_gateway.Validate.Params.{is_one_of}
use nano_rpc_gateway.Json.{is_some_and}
use nano_rpc_gateway.Stream.{
  NanoEvent, ConfirmationType, StreamOptions, all_types, active, inactive, active_quorum,
  active_confirmation_height, accepts, accounts_equal, is_wanted, block_text,
  is_legacy_confirmation, event_matches_accounts, matches,
}
use nano_rpc_gateway.Stream.Accounts.{account_key, accounts_equal_iff}

-- The classifications that a filter names.
abbrev pub classes : ConfirmationType → List String
classes all_types = []
classes active = "active_quorum" ∷ "active_confirmation_height" ∷ []
classes inactive = "inactive" ∷ []
classes active_quorum = "active_quorum" ∷ []
classes active_confirmation_height = "active_confirmation_height" ∷ []

-- The filter takes everything, or the event carries one of the classifications that it names.
abbrev pub Classified : ConfirmationType → Option String → Type 0
Classified t carried = (t ≡ all_types) ⊎ ((s : String) × (carried ≡ some s) × OneOf (classes t) s)

accepts_iff :
    (t : ConfirmationType) (carried : Option String)
    → (accepts t carried ≡ true) ↔ Classified t carried
unfolding accepts
accepts_iff all_types none = (λ _. inl refl, λ _. refl)
accepts_iff all_types (some s) = (λ _. inl refl, λ _. refl)
accepts_iff active none = (λ h. cc, λ h. elim h [ inl e ↦ cc | inr (s, e, m) ↦ cc ])
accepts_iff active (some s) = (
  λ h. inr (s, refl, (is_one_of_iff (classes active) s).0 h),
  λ h. elim h [
    | inl e ↦ cc
    | inr (s', e, m) ↦ let same : s ≡ s' = cc in (is_one_of_iff (classes active) s).1 (rw same m)
  ],
)
accepts_iff inactive none = ground arith
accepts_iff inactive (some s) = ground (arith, eq_iff s "inactive")
accepts_iff active_quorum none = ground arith
accepts_iff active_quorum (some s) = ground (arith, eq_iff s "active_quorum")
accepts_iff active_confirmation_height none = ground arith
accepts_iff active_confirmation_height (some s) =
    ground (arith, eq_iff s "active_confirmation_height")

-- The text is there and names the account `wanted`.
abbrev pub Holds : Option String → String → Type 0
Holds carried wanted = (a : String) × (carried ≡ some a) × (account_key wanted ≡ account_key a)

-- The account is the event's own, or the recipient of its send.
abbrev pub Concerns : NanoEvent → String → Type 0
Concerns item wanted =
    Holds (member_str item.payload "account") wanted
    ⊎ Holds (block_text item "link_as_account") wanted

-- A block of a kind from before the state blocks.
abbrev pub IsLegacy : NanoEvent → Type 0
IsLegacy item =
    (kind : String) × (block_text item "type" ≡ some kind)
    × OneOf ("open" ∷ "send" ∷ "receive" ∷ "change" ∷ []) kind

some-OneOf_iff :
    (ws : List String) (carried : Option String)
    → (is_some_and carried (is_one_of ws) ≡ true) ↔ ((s : String) × (carried ≡ some s) × OneOf ws s)
some-OneOf_iff ws none = (λ h. cc, λ (s, e, m). cc)
some-OneOf_iff ws (some t) = (
  λ h. (t, refl, (is_one_of_iff ws t).0 h),
  λ (s, e, m). let agree : t ≡ s = cc in (is_one_of_iff ws t).1 (rw agree m),
)

IsLegacy-iff : (item : NanoEvent) → (is_legacy_confirmation item ≡ true) ↔ IsLegacy item
unfolding is_legacy_confirmation
IsLegacy-iff item =
    some-OneOf_iff ("open" ∷ "send" ∷ "receive" ∷ "change" ∷ []) (block_text item "type")

-- No filter, an empty one, or an event with no legacy block that concerns an account of the filter.
abbrev pub PassesAccounts : NanoEvent → Option (List String) → Type 0
PassesAccounts item none = Unit
PassesAccounts item (some []) = Unit
PassesAccounts item (some (w ∷ ws)) =
    (¬ IsLegacy item) × ((v : String) × Memᴰ v (w ∷ ws) × Concerns item v)

any_iff :
    (p : String → Bool) (ws : List String)
    → (any p ws ≡ true) ↔ ((w : String) × Memᴰ w ws × (p w ≡ true))
any_iff p [] = (λ h. cc, λ (w, m, _). elim m [ ])
any_iff p (x ∷ xs) = (
  λ h. elim (Bool-cases (p x)) [
    | inl yes_here ↦ (x, Memᴰ.head refl, yes_here)
    | inr no_here ↦ let (w, m, e) = (any_iff p xs).0 (ground arith) in (w, Memᴰ.tail m, e)
  ],
  λ (w, m, e). elim (Memᴰ.cases_cons m) [
    | inl same ↦ let here : p x ≡ true = rw (← same) e in rw here refl
    | inr later ↦ let rest = (any_iff p xs).1 (w, later, e) in ground (arith, rest)
  ],
)

is_wanted_iff :
    (ws : List String) (carried : Option String)
    → (is_wanted ws carried ≡ true) ↔ ((w : String) × Memᴰ w ws × Holds carried w)
is_wanted_iff ws none = (λ h. cc, λ (w, m, (a, e, _)). cc)
is_wanted_iff ws (some s) = (
  λ h.
      let (w, m, e) = (any_iff (λ w. accounts_equal w s) ws).0 h in
      (w, m, (s, refl, (accounts_equal_iff w s).0 e)),
  λ (w, m, (a, e, k)).
      let same : s ≡ a = cc in
      (any_iff (λ w. accounts_equal w s) ws).1 (w, m, (accounts_equal_iff w s).1 (rw same k)),
)

-- When the block is no legacy block: one of the two tests holds.
wanted_iff :
    (item : NanoEvent) (ws : List String)
    → ((is_wanted ws (member_str item.payload "account")
          || is_wanted ws (block_text item "link_as_account"))
        ≡ true)
      ↔ ((v : String) × Memᴰ v ws × Concerns item v)
wanted_iff item ws =
    let own = is_wanted_iff ws (member_str item.payload "account") in
    let sent = is_wanted_iff ws (block_text item "link_as_account") in
    (
      λ h. elim (Bool-cases (is_wanted ws (member_str item.payload "account"))) [
        | inl yes_own ↦ let (v, m, holds) = own.0 yes_own in (v, m, inl holds)
        | inr no_own ↦ let (v, m, holds) = sent.0 (rw no_own at h) in (v, m, inr holds)
      ],
      λ (v, m, c). elim c [
        | inl holds ↦ let one_ = own.1 (v, m, holds) in ground (arith, one_)
        | inr holds ↦ let two_ = sent.1 (v, m, holds) in ground (arith, two_)
      ],
    )

-- The account filter lets an event through exactly when there is no filter, or the event's block is
-- no legacy block and its account, or the account that its send goes to, is one of those wanted.
pub event_matches_accounts_iff :
    (item : NanoEvent) (wanted : Option (List String))
    → (event_matches_accounts item wanted ≡ true) ↔ PassesAccounts item wanted
unfolding event_matches_accounts
event_matches_accounts_iff item none = (λ _. tt, λ _. refl)
event_matches_accounts_iff item (some []) = (λ _. tt, λ _. refl)
event_matches_accounts_iff item (some (w ∷ ws)) = elim (Bool-cases (is_legacy_confirmation item)) [
  | inl legacy ↦ rw legacy (λ h. cc, λ h. absurd (h.0 ((IsLegacy-iff item).0 legacy)))
  | inr state ↦
      let inner = wanted_iff item (w ∷ ws) in
      rw state (λ h. (λ old. cc (state, (IsLegacy-iff item).1 old), inner.0 h), λ h. inner.1 (h.1))
]

-- A subscription gets an event exactly when it is a confirmation whose classification the
-- subscription takes, and which passes its account filter. A filter for all takes any
-- classification and a missing one; each of the four others takes the one or two that it names and
-- no other, so it drops a classification that the gateway does not recognise, although the
-- documentation of `accepts` says that such a classification is kept.
pub matches_iff :
    (options : StreamOptions) (item : NanoEvent)
    → (matches options item ≡ true) ↔ (
        (item.event ≡ "nano.confirmation")
        × Classified options.confirmation_type (member_str item.payload "confirmation_type")
        × PassesAccounts item options.accounts)
unfolding matches
matches_iff options item =
    let kind =
      accepts_iff options.confirmation_type (member_str item.payload "confirmation_type") in
    let own = event_matches_accounts_iff item options.accounts in
    (
      λ h. (
        ground (arith, eq_iff item.event "nano.confirmation"),
        kind.0 (ground arith),
        own.0 (ground arith),
      ),
      λ (e, c, p).
          let taken = kind.1 c in
          let passed = own.1 p in
          ground (arith, eq_iff item.event "nano.confirmation", taken, passed),
    )

-- The classifications that the filters name between them.
abbrev pub recognised : List String
recognised = "active_quorum" ∷ "active_confirmation_height" ∷ "inactive" ∷ []

classes-recognised : (t : ConfirmationType) (s : String) → OneOf (classes t) s → OneOf recognised s
classes-recognised all_types s none_named = elim none_named [ ]
classes-recognised active s (inr (inr later)) = elim later [ ]
classes-recognised inactive s (inr later) = elim later [ ]
classes-recognised active_quorum s (inr later) = elim later [ ]
classes-recognised active_confirmation_height s (inr later) = elim later [ ]
classes-recognised active s (inl e) = inl e
classes-recognised active s (inr (inl e)) = inr (inl e)
classes-recognised inactive s (inl e) = inr (inr (inl e))
classes-recognised active_quorum s (inl e) = inl e
classes-recognised active_confirmation_height s (inl e) = inr (inl e)

-- An event with a classification that no filter names is dropped by every filter but the one for
-- all: a subscription gets it exactly when it is a confirmation, the subscription takes all
-- classifications, and it passes the account filter.
pub matches_unrecognised_iff :
    (options : StreamOptions) (item : NanoEvent) (s : String)
    → member_str item.payload "confirmation_type" ≡ some s
    → ¬ OneOf recognised s
    → (matches options item ≡ true) ↔ (
        (item.event ≡ "nano.confirmation")
        × (options.confirmation_type ≡ all_types)
        × PassesAccounts item options.accounts)
matches_unrecognised_iff options item s carried unknown =
    let whole = matches_iff options item in
    (
      λ h.
          let (e, c, p) = whole.0 h in
          (
            e,
            elim c [
              | inl every ↦ every
              | inr (s', same, m) ↦
                  let agree : s' ≡ s = cc in
                  absurd (
                    unknown (
                      classes-recognised options.confirmation_type s
                        (subst (OneOf (classes options.confirmation_type)) agree m)))
            ],
            p,
          ),
      λ (e, every, p). whole.1 (e, inl every, p),
    )
