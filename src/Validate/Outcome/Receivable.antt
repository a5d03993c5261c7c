-- ===== src/Validate/Outcome/Receivable.antt =====
-- The shapes of a receivable block set that `validate_receivable_value` lets through.
use nano_rpc_gateway.Prelude.{
  String, Bool, true, List, [], ◌∷◌, Option, none, some, ◌≡◌, refl, ◌↔◌, All, all, arith,
}
use nano_rpc_gateway.Json.{Value, string, array, object, items, values, get, is_string, is_some_and}
use nano_rpc_gateway.Validate.Params.Shapes.{IsString, is_string_iff, is_filled_iff}
use nano_rpc_gateway.Validate.Outcome.{is_receivable_entry, validate_receivable_value}

-- An amount, or an object with the amount and its source.
abbrev pub ReceivableEntry : Value → Type 0
ReceivableEntry (string amount) = Unit
ReceivableEntry (object fs) =
    (amount : String) × (source : String) × (get fs "amount" ≡ some (string amount))
    × (get fs "source" ≡ some (string source))
ReceivableEntry _ = ⊥

-- A list of hashes, a map from hash to entry, or the empty text.
abbrev pub ReceivableSet : Value → Type 0
ReceivableSet (array hashes) = All IsString (items hashes)
ReceivableSet (object fs) = All ReceivableEntry (values fs)
ReceivableSet (string s) = s ≡ ""
ReceivableSet _ = ⊥

text_iff :
    (o : Option Value) → (is_some_and o is_string ≡ true) ↔ ((s : String) × (o ≡ some (string s)))
text_iff none = (λ h. cc, λ h. cc (h.1))
text_iff (some (string s)) = (λ _. (s, refl), λ _. refl)
text_iff (some _) = (λ h. cc, λ h. cc (h.1))

is_receivable_entry_iff : (v : Value) → (is_receivable_entry v ≡ true) ↔ ReceivableEntry v
unfolding is_receivable_entry
is_receivable_entry_iff (object fs) = (
  λ h.
      let (amount, e) = (text_iff (get fs "amount")).0 (ground arith) in
      let (source, f) = (text_iff (get fs "source")).0 (ground arith) in (amount, source, e, f),
  λ (amount, source, e, f). rw (e, f),
)
is_receivable_entry_iff (string _) = (λ _. tt, λ _. refl)
is_receivable_entry_iff _ = (λ h. cc, λ h. absurd h)

all_iff :
    (test : Value → Bool) (P : Value → Type 0) (decides : (v : Value) → (test v ≡ true) ↔ P v)
    (vs : List Value)
    → (all test vs ≡ true) ↔ All P vs
all_iff test P decides [] = (λ _. tt, λ _. refl)
all_iff test P decides (v ∷ vs) = (
  λ h. ((decides v).0 (ground arith), (all_iff test P decides vs).0 (ground arith)),
  λ h. rw ((decides v).1 h.0) ((all_iff test P decides vs).1 h.1),
)

-- A receivable set passes exactly when it is a list of texts, a map of amounts with or without
-- their sources, or the empty text.
pub validate_receivable_value_iff :
    (v : Value) → (validate_receivable_value v ≡ true) ↔ ReceivableSet v
unfolding validate_receivable_value
validate_receivable_value_iff (array hashes) =
    all_iff is_string IsString is_string_iff (items hashes)
validate_receivable_value_iff (object fs) =
    all_iff is_receivable_entry ReceivableEntry is_receivable_entry_iff (values fs)
validate_receivable_value_iff (string s) = ground (arith, is_filled_iff s)
validate_receivable_value_iff _ = (λ h. cc, λ h. absurd h)
