-- ===== src/Json.antt =====
-- JSON documents as the gateway reads them: `serde_json::Value`, its accessors, and its map with
-- sorted keys (`serde_json` is built without `preserve_order`). Parsing and printing of the text
-- form stay parameters of the modules that need them.
pub mod Laws
pub mod Macro
use Prim.Native.String.{compare}
use text.Mathlib.Text.{◌==◌ as str_eq, is_lt}
use nano_rpc_gateway.Prelude.{
  ℕ, ◌+◌, ◌^◌, String, Bool, true, false, List, [], ◌∷◌, Option, none, some, ltb, leb, ◌&&◌,
  if◌then◌else◌,
}
use nano_rpc_gateway.Prelude.Int.{ℤ, pos, negsuc}

-- A number is an unsigned integer of 64 bits, a negative one, or a finite double, which is kept as
-- its bit pattern. `neg_int n` is -(n + 1).
pub data Number : Type 0 where
  pos_int : ℕ → Number
  neg_int : ℕ → Number
  float : ℕ → Number

mutual
  pub data Value : Type 0 where
    null : Value
    bool : Bool → Value
    number : Number → Value
    string : String → Value
    array : Values → Value
    object : Fields → Value

  pub data Values : Type 0 where
    nil : Values
    cons : Value → Values → Values

  -- The entries of a map, in the order of its iteration.
  pub data Fields : Type 0 where
    end : Fields
    field : String → Value → Fields → Fields

abbrev pub items : Values → List Value
items nil = []
items (cons v vs) = v ∷ items vs

abbrev pub of_items : List Value → Values
of_items [] = nil
of_items (v ∷ vs) = cons v (of_items vs)

abbrev pub entries : Fields → List (String × Value)
entries end = []
entries (field k v fs) = (k, v) ∷ entries fs

abbrev pub values : Fields → List Value
values end = []
values (field k v fs) = v ∷ values fs

-- `Map::get`
unfoldable pub get : Fields → String → Option Value
get end k = none
get (field j v fs) k = if str_eq j k then some v else get fs k

-- `Map::contains_key`
unfoldable pub contains_key : Fields → String → Bool
unfolding get
contains_key fs k = elim (get fs k) [ none ↦ false | some _ ↦ true ]

-- `Map::insert`: a key that is there gets the new value, a new key goes to its sorted place.
unfoldable pub insert : String → Value → Fields → Fields
insert k v end = field k v end
insert k v (field j w fs) =
    let later = field j w (insert k v fs) in
    if str_eq j k
    then field k v fs
    else if is_lt (compare k j)
    then field k v (field j w fs)
    else later

-- `Map::remove`; the keys of a map are distinct, so one entry goes at most.
unfoldable pub remove : String → Fields → Fields
remove k end = end
remove k (field j w fs) = let rest = remove k fs in if str_eq j k then rest else field j w rest

abbrev pub as_str : Value → Option String
as_str (string s) = some s
as_str _ = none

abbrev pub as_bool : Value → Option Bool
as_bool (bool b) = some b
as_bool _ = none

abbrev pub as_array : Value → Option (List Value)
as_array (array vs) = some (items vs)
as_array _ = none

abbrev pub as_object : Value → Option Fields
as_object (object fs) = some fs
as_object _ = none

abbrev number_u64 : Number → Option ℕ
number_u64 (pos_int n) = some n
number_u64 _ = none

abbrev pub as_u64 : Value → Option ℕ
as_u64 (number n) = number_u64 n
as_u64 _ = none

-- An unsigned number past `i64::MAX` is no `i64`.
abbrev number_i64 : Number → Option ℤ
number_i64 (pos_int n) = if ltb n (2 ^ 63) then some (pos n) else none
number_i64 (neg_int n) = some (negsuc n)
number_i64 (float _) = none

abbrev pub as_i64 : Value → Option ℤ
as_i64 (number n) = number_i64 n
as_i64 _ = none

-- The number, read as a double, is above 0.0: its sign bit is 0, it is not 0, and it is no NaN.
abbrev pub number_gt_zero : Number → Bool
number_gt_zero (pos_int n) = ltb 0 n
number_gt_zero (neg_int n) = false
number_gt_zero (float bits) = ltb 0 bits && leb bits 0x7ff0000000000000

-- `value.as_f64().is_some_and(|x| x > 0.0)`
abbrev pub f64_gt_zero : Value → Bool
f64_gt_zero (number n) = number_gt_zero n
f64_gt_zero _ = false

abbrev pub is_string : Value → Bool
is_string (string _) = true
is_string _ = false

abbrev pub is_boolean : Value → Bool
is_boolean (bool _) = true
is_boolean _ = false

abbrev pub is_number : Value → Bool
is_number (number _) = true
is_number _ = false

abbrev pub is_null : Value → Bool
is_null null = true
is_null _ = false

abbrev pub is_array : Value → Bool
is_array (array _) = true
is_array _ = false

abbrev pub is_object : Value → Bool
is_object (object _) = true
is_object _ = false

-- `Value::get` with a key: a value that is no object has no members.
unfoldable pub member : Value → String → Option Value
unfolding get
member (object fs) k = get fs k
member _ k = none

-- `Option::and_then`, `Option::is_some_and` and `Option::is_none_or`
abbrev pub and_then {ℓ κ} : {A : Type ℓ} {B : Type κ} → Option A → (A → Option B) → Option B
and_then none f = none
and_then (some a) f = f a

abbrev pub is_some_and {ℓ} : {A : Type ℓ} → Option A → (A → Bool) → Bool
is_some_and none p = false
is_some_and (some a) p = p a

abbrev pub is_none_or {ℓ} : {A : Type ℓ} → Option A → (A → Bool) → Bool
is_none_or none p = true
is_none_or (some a) p = p a

abbrev pub unwrap_or {ℓ} : {A : Type ℓ} → Option A → A → A
unwrap_or none d = d
unwrap_or (some a) d = a

-- `value.get(k).and_then(Value::as_str)`
unfoldable pub get_str : Fields → String → Option String
unfolding get
get_str fs k = and_then (get fs k) as_str

unfoldable pub member_str : Value → String → Option String
unfolding member
member_str v k = and_then (member v k) as_str
