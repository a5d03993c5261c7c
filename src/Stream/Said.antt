-- ===== src/Stream/Said.antt =====
-- What the members of a subscription object say, and how `StreamOptions` of src/lib.rs reads them.
use nano_rpc_gateway.Prelude.{
  String, Bool, List, [], ◌∷◌, Option, none, some, ◌≡◌, refl, ◌↔◌, arith, eq_iff, ◌∙◌, sym, ap,
  subst,
}
use nano_rpc_gateway.Prelude.Result.{ok, ok-injective}
use nano_rpc_gateway.Json.{
  Value, bool, string, array, items, and_then, unwrap_or, as_bool, as_array,
}
use nano_rpc_gateway.Stream.{
  ConfirmationType, all_types, active, inactive, active_quorum, active_confirmation_height,
  texts_of, parse,
}

-- The node's word for a filter on classifications.
abbrev pub word_of : ConfirmationType → String
word_of all_types = "all"
word_of active = "active"
word_of inactive = "inactive"
word_of active_quorum = "active_quorum"
word_of active_confirmation_height = "active_confirmation_height"

-- The text that is given is the word of the filter; where none is given, all are taken.
abbrev pub Named : Option String → ConfirmationType → Type 0
Named none t = t ≡ all_types
Named (some s) t = s ≡ word_of t

-- A Boolean says itself; any other member, a text as well, and a missing one say the default.
abbrev pub SwitchSays : Option Value → Bool → Bool → Type 0
SwitchSays (some (bool b)) default said = said ≡ b
SwitchSays _ default said = said ≡ default

-- The texts of a list, in their order.
abbrev pub Texts : List Value → List String → Type 0
Texts [] ts = ts ≡ []
Texts (string s ∷ vs) ts = (later : List String) × (ts ≡ s ∷ later) × Texts vs later
Texts (_ ∷ vs) ts = Texts vs ts

-- The accounts are the texts of a list that is given.
abbrev pub Listed : Option Value → Option (List String) → Type 0
Listed (some (array vs)) carried = (ts : List String) × (carried ≡ some ts) × Texts (items vs) ts
Listed _ carried = carried ≡ none

parse-word_of : (t : ConfirmationType) → parse (some (word_of t)) ≡ ok t
unfolding parse
parse-word_of all_types = refl
parse-word_of active = refl
parse-word_of inactive = refl
parse-word_of active_quorum = refl
parse-word_of active_confirmation_height = refl

word_of-parse : (s : String) (t : ConfirmationType) → parse (some s) ≡ ok t → s ≡ word_of t
unfolding parse
word_of-parse s all_types h = ground (
  arith,
  h,
  eq_iff s "all",
  eq_iff s "active",
  eq_iff s "inactive",
  eq_iff s "active_quorum",
  eq_iff s "active_confirmation_height",
)
word_of-parse s active h = ground (
  arith,
  h,
  eq_iff s "all",
  eq_iff s "active",
  eq_iff s "inactive",
  eq_iff s "active_quorum",
  eq_iff s "active_confirmation_height",
)
word_of-parse s inactive h = ground (
  arith,
  h,
  eq_iff s "all",
  eq_iff s "active",
  eq_iff s "inactive",
  eq_iff s "active_quorum",
  eq_iff s "active_confirmation_height",
)
word_of-parse s active_quorum h = ground (
  arith,
  h,
  eq_iff s "all",
  eq_iff s "active",
  eq_iff s "inactive",
  eq_iff s "active_quorum",
  eq_iff s "active_confirmation_height",
)
word_of-parse s active_confirmation_height h = ground (
  arith,
  h,
  eq_iff s "all",
  eq_iff s "active",
  eq_iff s "inactive",
  eq_iff s "active_quorum",
  eq_iff s "active_confirmation_height",
)

pub parse_iff :
    (carried : Option String) (t : ConfirmationType) → (parse carried ≡ ok t) ↔ Named carried t
unfolding parse
parse_iff none t = (λ h. sym (ok-injective h), λ h. ap ok (sym h))
parse_iff (some s) t =
    (word_of-parse s t, λ h. subst (λ w. parse (some w) ≡ ok t) (sym h) (parse-word_of t))

pub switch_iff :
    (carried : Option Value) (default said : Bool)
    → (unwrap_or (and_then carried as_bool) default ≡ said) ↔ SwitchSays carried default said
switch_iff none default said = (λ h. sym h, λ h. sym h)
switch_iff (some (bool b)) default said = (λ h. sym h, λ h. sym h)
switch_iff (some _) default said = (λ h. sym h, λ h. sym h)

Texts-iff : (vs : List Value) (ts : List String) → (texts_of vs ≡ ts) ↔ Texts vs ts
Texts-iff [] ts = (λ h. sym h, λ h. sym h)
Texts-iff (string s ∷ vs) ts =
    let rest = Texts-iff vs in
    (
      λ h. (texts_of vs, sym h, (rest (texts_of vs)).0 refl),
      λ (later, e, h). ap (λ l. s ∷ l) ((rest later).1 h) ∙ sym e,
    )
Texts-iff (_ ∷ vs) ts = Texts-iff vs ts

pub Listed-iff :
    (carried : Option Value) (accounts : Option (List String))
    → (and_then (and_then carried as_array) (λ vs. some (texts_of vs)) ≡ accounts)
      ↔ Listed carried accounts
Listed-iff none accounts = (λ h. sym h, λ h. sym h)
Listed-iff (some (array vs)) accounts = (
  λ h. (texts_of (items vs), sym h, (Texts-iff (items vs) (texts_of (items vs))).0 refl),
  λ (ts, e, h). ap some ((Texts-iff (items vs) ts).1 h) ∙ sym e,
)
Listed-iff (some _) accounts = (λ h. sym h, λ h. sym h)
