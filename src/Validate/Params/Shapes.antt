-- ===== src/Validate/Params/Shapes.antt =====
-- The shapes of JSON values that `validate_params` asks for, as predicates, and that its tests
-- decide them.
use text.Mathlib.TextLemmas.{cons≢nil}
use nano_rpc_gateway.Prelude.{
  ℕ, code, ◌≤◌, ◌<◌, ◌^◌, String, Bool, true, List, [], ◌∷◌, some, ◌≡◌, refl, ◌≢◌, ◌↔◌, ◌⊎◌, inl,
  inr, All, all, arith, eq_iff, Option-cases,
}
use nano_rpc_gateway.Prelude.Text.{codes, decimal, is_ascii_digit, without_plus}
use nano_rpc_gateway.Prelude.Result.{ok, for_each, >>_iff}
use nano_rpc_gateway.Json.{
  Value, Fields, null, bool, number, string, array, object, pos_int, neg_int, float, items, get,
  f64_gt_zero, is_string, is_object,
}
use nano_rpc_gateway.Validate.Params.{
  is_one_of, valid_required, is_text, is_filled, is_text_list, is_count, is_count_text, is_switch,
  is_index, subtypes, is_subtype, is_text_or_object, check_option,
}

-- One of the words.
abbrev pub OneOf : List String → String → Type 0
OneOf [] s = ⊥
OneOf (w ∷ ws) s = (s ≡ w) ⊎ OneOf ws s

abbrev pub IsText : Value → Type 0
IsText (string s) = s ≢ ""
IsText _ = ⊥

abbrev pub IsTextList : Value → Type 0
IsTextList (array vs) = (items vs ≢ []) × All IsText (items vs)
IsTextList _ = ⊥

abbrev pub IsString : Value → Type 0
IsString (string s) = Unit
IsString _ = ⊥

abbrev pub IsObject : Value → Type 0
IsObject (object fs) = Unit
IsObject _ = ⊥

abbrev pub IsTextOrObject : Value → Type 0
IsTextOrObject (string s) = Unit
IsTextOrObject (object fs) = Unit
IsTextOrObject _ = ⊥

abbrev pub IsSwitch : Value → Type 0
IsSwitch (bool b) = Unit
IsSwitch (string s) = Unit
IsSwitch _ = ⊥

-- An unsigned number that fits in 63 bits.
abbrev pub IsIndex : Value → Type 0
IsIndex (number (pos_int n)) = n < 2 ^ 63
IsIndex _ = ⊥

abbrev pub IsSubtype : Value → Type 0
IsSubtype (string s) = OneOf subtypes s
IsSubtype _ = ⊥

-- A number above zero: an integer, or the bit pattern of a positive double.
abbrev pub IsPositive : Value → Type 0
IsPositive (number (pos_int n)) = 0 < n
IsPositive (number (float bits)) = (0 < bits) × (bits ≤ 0x7ff0000000000000)
IsPositive _ = ⊥

-- Decimal digits whose value fits in 64 bits.
abbrev pub IsDecimal : String → Type 0
IsDecimal s = (s ≢ "") × (all is_ascii_digit (codes s) ≡ true) × (decimal 0 (codes s) < 2 ^ 64)

-- Any unsigned number, -1, or either of them as text.
abbrev pub IsCount : Value → Type 0
IsCount (number (pos_int n)) = Unit
IsCount (number (neg_int n)) = n ≡ 0
IsCount (string s) = (s ≡ "-1") ⊎ IsDecimal s
IsCount _ = ⊥

pub is_one_of_iff : (ws : List String) (s : String) → (is_one_of ws s ≡ true) ↔ OneOf ws s
is_one_of_iff [] s = ground arith
is_one_of_iff (w ∷ ws) s = ground (arith, eq_iff s w, is_one_of_iff ws s)

pub is_filled_iff : (s : String) → (is_filled s ≡ true) ↔ (s ≢ "")
is_filled_iff String.[] = ground arith
is_filled_iff (String.◌∷◌ c s) = (λ _ e. cons≢nil e, λ _. refl)

pub is_text_iff : (v : Value) → (is_text v ≡ true) ↔ IsText v
is_text_iff (string s) = is_filled_iff s
is_text_iff _ = ground arith

all_iff : (vs : List Value) → (all is_text vs ≡ true) ↔ All IsText vs
all_iff [] = ground arith
all_iff (v ∷ vs) = ground (arith, is_text_iff v, all_iff vs)

pub is_text_list_iff : (v : Value) → (is_text_list v ≡ true) ↔ IsTextList v
is_text_list_iff (array vs) = ground (arith, all_iff (items vs))
is_text_list_iff _ = ground arith

pub is_string_iff : (v : Value) → (is_string v ≡ true) ↔ IsString v
is_string_iff null = ground arith
is_string_iff _ = ground arith

pub is_object_iff : (v : Value) → (is_object v ≡ true) ↔ IsObject v
is_object_iff null = ground arith
is_object_iff _ = ground arith

pub is_text_or_object_iff : (v : Value) → (is_text_or_object v ≡ true) ↔ IsTextOrObject v
is_text_or_object_iff null = ground arith
is_text_or_object_iff _ = ground arith

pub is_switch_iff : (v : Value) → (is_switch v ≡ true) ↔ IsSwitch v
is_switch_iff null = ground arith
is_switch_iff _ = ground arith

pub is_index_iff : (v : Value) → (is_index v ≡ true) ↔ IsIndex v
is_index_iff (number (pos_int n)) = ground arith
is_index_iff (number (neg_int n)) = ground arith
is_index_iff (number (float n)) = ground arith
is_index_iff null = ground arith
is_index_iff _ = ground arith

pub is_subtype_iff : (v : Value) → (is_subtype v ≡ true) ↔ IsSubtype v
is_subtype_iff (string s) = is_one_of_iff subtypes s
is_subtype_iff _ = ground arith

pub f64_gt_zero_iff : (v : Value) → (f64_gt_zero v ≡ true) ↔ IsPositive v
f64_gt_zero_iff (number (pos_int n)) = ground arith
f64_gt_zero_iff (number (neg_int n)) = ground arith
f64_gt_zero_iff (number (float n)) = ground arith
f64_gt_zero_iff null = ground arith
f64_gt_zero_iff _ = ground arith

-- The digits hold no sign, so `parse` sees them all.
parse_u64-digits :
    (c : ℕ) (cs : List ℕ) → all is_ascii_digit (c ∷ cs) ≡ true → without_plus (c ∷ cs) ≡ c ∷ cs
parse_u64-digits c cs h = ground arith

is_count_text_iff : (s : String) → (is_count_text s ≡ true) ↔ ((s ≡ "-1") ⊎ IsDecimal s)
unfolding is_count_text
is_count_text_iff String.[] = ground (arith, eq_iff "" "-1")
is_count_text_iff (String.◌∷◌ c s) =
    let t : String = String.◌∷◌ c s in
    ground (arith, eq_iff t "-1", is_filled_iff t, parse_u64-digits (code c) (codes s))

pub is_count_iff : (v : Value) → (is_count v ≡ true) ↔ IsCount v
unfolding is_count
is_count_iff (number (pos_int n)) = ground arith
is_count_iff (number (neg_int n)) = ground arith
is_count_iff (number (float n)) = ground arith
is_count_iff (string s) = ground (arith, is_count_text_iff s)
is_count_iff null = ground arith
is_count_iff _ = ground arith

-- What each required parameter has to be.
pub record RequiredShape (name : String) (v : Value) : Type 0 where
  pub text : OneOf ("account" ∷ "hash" ∷ []) name → IsText v
  pub text_list : OneOf ("accounts" ∷ "hashes" ∷ []) name → IsTextList v
  pub object : name ≡ "block" → IsObject v

pub valid_required_iff :
    (name : String) (v : Value) → (valid_required name v ≡ true) ↔ RequiredShape name v
unfolding valid_required
valid_required_iff name v = ground (
  arith,
  eq_iff name "account",
  eq_iff name "hash",
  eq_iff name "accounts",
  eq_iff name "hashes",
  eq_iff name "block",
  is_text_iff v,
  is_text_list_iff v,
  is_object_iff v,
  eq_iff "account" "accounts",
  eq_iff "account" "hashes",
  eq_iff "account" "block",
  eq_iff "hash" "accounts",
  eq_iff "hash" "hashes",
  eq_iff "hash" "block",
  eq_iff "accounts" "block",
  eq_iff "hashes" "block",
)

-- An option that is given has its shape.
abbrev pub WhenPresent : (Value → Type 0) → Fields → String → Type 0
WhenPresent P fs name = (v : Value) → get fs name ≡ some v → P v

module _ (valid : Value → Bool) (P : Value → Type 0)
    (decides : (v : Value) → (valid v ≡ true) ↔ P v) (fs : Fields) where
  check_option_to : (name : String) → check_option valid fs name ≡ ok tt → WhenPresent P fs name
  check_option_to name h v e = (decides v).0 (ground arith)

  check_option_from : (name : String) → WhenPresent P fs name → check_option valid fs name ≡ ok tt
  check_option_from name h = elim (Option-cases (get fs name)) [
    | inl missing ↦ rw missing
    | inr (v, found) ↦ rw (found, (decides v).1 (h v found))
  ]

  pub check_option_iff :
      (name : String) → (check_option valid fs name ≡ ok tt) ↔ WhenPresent P fs name
  check_option_iff name = (check_option_to name, check_option_from name)

  -- A loop over options checks each of them.
  pub for_each-check_option_iff :
      (names : List String)
      → (for_each (check_option valid fs) names ≡ ok tt) ↔ All (WhenPresent P fs) names
  for_each-check_option_iff [] = (λ _. tt, λ _. refl)
  for_each-check_option_iff (name ∷ names) =
      let both = >>_iff (check_option valid fs name) (for_each (check_option valid fs) names) in
      (
        λ h.
            let (a, b) = both.0 h in
            (check_option_to name a, (for_each-check_option_iff names).0 b),
        λ h. both.1 (check_option_from name h.0, (for_each-check_option_iff names).1 h.1),
      )
