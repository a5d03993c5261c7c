-- ===== src/Validate/Outcome/Inventory.antt =====
-- The methods of the registry and those of the result checks.
use text.Mathlib.Text.{◌==◌ as str_eq}
use nano_rpc_gateway.Prelude.{
  String, Bool, true, false, List, [], ◌∷◌, some, ◌≡◌, refl, ◌↔◌, inl, inr, All, Bool-cases, arith,
  eq_iff, map, all,
}
use nano_rpc_gateway.Json.{
  Value, Fields, object, end, field, string, array, nil, get_str, contains_key,
}
use nano_rpc_gateway.Registry.{MethodSpec, registry, find_method}
use nano_rpc_gateway.Validate.Params.Shapes.{OneOf, is_one_of_iff}
use nano_rpc_gateway.Validate.Outcome.{
  validate_object, validate_result, has_string, validate_receivable_result,
  validate_receivable_value,
}
use nano_rpc_gateway.Validate.Params.{is_one_of}

names : List String
unfolding registry
names = map (λ (m : MethodSpec). m.name) registry

not-is_one_of :
    (ws : List String) (s : String) → is_one_of ws s ≡ false → All (λ w. str_eq s w ≡ false) ws
not-is_one_of [] s h = tt
not-is_one_of (w ∷ ws) s h = (ground arith, not-is_one_of ws s (ground arith))

-- No arm of the ladder fits.
validate_object-other :
    (method : String) (fs : Fields)
    → All (λ w. str_eq method w ≡ false) names
    → validate_object method fs ≡ false
unfolding validate_object names
validate_object-other method fs
      (a, (b, (c, (d, (e, (f, (g, (h, (i, (j, (k, (l, (m, (n, (o, (p, _)))))))))))))))) =
    rw (a, b, e, c, f, g, h, i, j, l, d, k, m, n, o, p)

find_method_of-OneOf :
    (method : String) (ms : List MethodSpec)
    → OneOf (map (λ (m : MethodSpec). m.name) ms) method
    → (spec : MethodSpec) × (find_method method ms ≡ some spec)
unfolding find_method
find_method_of-OneOf method [] e = elim e [ ]
find_method_of-OneOf method (m ∷ ms) (inl e) = (m, ground (arith, eq_iff m.name method))
find_method_of-OneOf method (m ∷ ms) (inr later) =
    let (spec, found) = find_method_of-OneOf method ms later in
    elim (Bool-cases (str_eq m.name method)) [
      | inl same ↦ (m, rw same)
      | inr other ↦ (spec, rw other found)
    ]

OneOf-of-find_method :
    (method : String) (ms : List MethodSpec) (spec : MethodSpec)
    → find_method method ms ≡ some spec
    → OneOf (map (λ (m : MethodSpec). m.name) ms) method
unfolding find_method
OneOf-of-find_method method [] spec e = cc
OneOf-of-find_method method (m ∷ ms) spec e =
    ground (arith, eq_iff m.name method, OneOf-of-find_method method ms spec)

filled : String → Fields → Fields
filled name fs = field name (string "1") fs

-- One object that every method's check lets through.
sample : Value
unfolding filled
sample = object (
    filled "rpc_version" (
      filled "count" (
        filled "unchecked" (
          filled "cemented" (
            filled "frontier" (
              filled "open_block" (
                filled "representative_block" (
                  filled "balance" (
                    filled "modified_timestamp" (
                      filled "block_count" (
                        filled "account_version" (
                          filled "receivable" (
                            filled "account" (
                              filled "block_account" (
                                filled "amount" (
                                  filled "height" (
                                    filled "local_timestamp" (
                                      filled "contents" (
                                        filled "confirmed" (
                                          filled "started" (
                                            filled "hash" (
                                              filled "work" (
                                                filled "difficulty" (
                                                  filled "multiplier" (
                                                    filled "valid_all" (
                                                      filled "valid_receive" (
                                                        field "success" (string "") (
                                                          field "blocks" (object end) (
                                                            field "history" (array nil) (
                                                            field "errors" (object end)
                                                            end))))))))))))))))))))))))))))))

sample_passes : all (λ name. validate_result name sample) names ≡ true
unfolding sample names validate_result validate_object has_string get_str contains_key
    validate_receivable_result validate_receivable_value
sample_passes = refl

all-OneOf :
    (p : String → Bool) (ws : List String) (s : String) → all p ws ≡ true → OneOf ws s → p s ≡ true
all-OneOf p [] s h m = elim m [ ]
all-OneOf p (w ∷ ws) s h (inl e) = rw e (ground arith)
all-OneOf p (w ∷ ws) s h (inr m) = all-OneOf p ws s (ground arith) m

passing-OneOf : (method : String) (v : Value) → validate_result method v ≡ true → OneOf names method
unfolding validate_result
passing-OneOf method (object fs) h = elim (Bool-cases (is_one_of names method)) [
  | inl listed ↦ (is_one_of_iff names method).0 listed
  | inr other ↦ cc (validate_object-other method fs (not-is_one_of names method other))
]
passing-OneOf method _ h = cc

-- A method is in the registry exactly when some upstream result passes its check: no method that
-- can be called has its every result refused, and a result of any other method is refused.
pub find_method-validate_result_iff :
    (method : String)
    → ((spec : MethodSpec) × (find_method method registry ≡ some spec))
      ↔ ((v : Value) × (validate_result method v ≡ true))
unfolding names
find_method-validate_result_iff method = (
  λ found. (
    sample,
    all-OneOf (λ name. validate_result name sample) names method sample_passes
        (OneOf-of-find_method method registry found.0 found.1),
  ),
  λ passing. find_method_of-OneOf method registry (passing-OneOf method passing.0 passing.1),
)
