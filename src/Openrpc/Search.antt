-- ===== src/Openrpc/Search.antt =====
-- The search for the reachable components ends: what is left to do is bounded by what is pending
-- and by the references of the components that are not reached.
use native.Mathlib.Nat.{mod-lt}
use nano_rpc_gateway.Prelude.{
  ℕ, zero, suc, ◌+◌, ◌≤◌, ◌<◌, String, Bool, true, false, List, [], ◌∷◌, ◌++◌, Option, none, some,
  ◌≡◌, refl, ◌≢◌, arith, eq_iff, length, get_or, if◌then◌else◌, Bool-cases, inl, inr, ap, ◌∙◌, sym,
}
use nano_rpc_gateway.Json.{
  Value, Values, Fields, object, array, nil, cons, end, field, get, null, bool, number, string,
}
use nano_rpc_gateway.Openrpc.Refs.{
  has, add, without, reference, add_given, collect_schema_refs, collect_fields, collect_values,
  visit, next_of, round, search,
}

abbrev pub given : Option String → List String
given none = []
given (some name) = name ∷ []

-- The references in a value, in the order of the walk.
unfoldable mutual
  unfolding reference

  pub refs_of : Value → List String
  refs_of (object fs) = given (reference fs) ++ refs_of_fields fs
  refs_of (array vs) = refs_of_values vs
  refs_of _ = []

  pub refs_of_fields : Fields → List String
  refs_of_fields end = []
  refs_of_fields (field k v fs) = refs_of v ++ refs_of_fields fs

  pub refs_of_values : Values → List String
  refs_of_values nil = []
  refs_of_values (cons v vs) = refs_of v ++ refs_of_values vs

unfoldable pub refs_of_methods : List Value → List String
unfolding refs_of
refs_of_methods [] = []
refs_of_methods (m ∷ ms) = refs_of m ++ refs_of_methods ms

unfoldable pub add_all : List String → List String → List String
unfolding add
add_all [] names = names
add_all (n ∷ ns) names = add_all ns (add n names)

pub add_all-append :
    (xs ys names : List String) → add_all (xs ++ ys) names ≡ add_all ys (add_all xs names)
unfolding add_all
add_all-append [] ys names = refl
add_all-append (x ∷ xs) ys names = add_all-append xs ys (add x names)

add_given-add_all :
    (o : Option String) (names : List String) → add_given o names ≡ add_all (given o) names
unfolding add_all
add_given-add_all none names = refl
add_given-add_all (some n) names = refl

-- The walk adds the references.
mutual
  unfolding collect_schema_refs collect_fields collect_values refs_of refs_of_fields refs_of_values
      add_all

  pub collect-add_all :
      (v : Value) (names : List String) → collect_schema_refs v names ≡ add_all (refs_of v) names
  collect-add_all (object fs) names =
      ap (collect_fields fs) (add_given-add_all (reference fs) names)
      ∙ collect_fields-add_all fs (add_all (given (reference fs)) names)
      ∙ sym (add_all-append (given (reference fs)) (refs_of_fields fs) names)
  collect-add_all (array vs) names = collect_values-add_all vs names
  collect-add_all null names = refl
  collect-add_all (bool b) names = refl
  collect-add_all (number n) names = refl
  collect-add_all (string s) names = refl

  collect_fields-add_all :
      (fs : Fields) (names : List String)
      → collect_fields fs names ≡ add_all (refs_of_fields fs) names
  collect_fields-add_all end names = refl
  collect_fields-add_all (field k v fs) names =
      ap (collect_fields fs) (collect-add_all v names)
      ∙ collect_fields-add_all fs (add_all (refs_of v) names)
      ∙ sym (add_all-append (refs_of v) (refs_of_fields fs) names)

  collect_values-add_all :
      (vs : Values) (names : List String)
      → collect_values vs names ≡ add_all (refs_of_values vs) names
  collect_values-add_all nil names = refl
  collect_values-add_all (cons v vs) names =
      ap (collect_values vs) (collect-add_all v names)
      ∙ collect_values-add_all vs (add_all (refs_of v) names)
      ∙ sym (add_all-append (refs_of v) (refs_of_values vs) names)

pub length-add_all : (xs names : List String) → length (add_all xs names) ≤ length names + length xs
unfolding add_all add
length-add_all [] names = omega arith
length-add_all (x ∷ xs) names = elim (Bool-cases (has x names)) [
  | inl there ↦ rw there (omega (arith, length-add_all xs names))
  | inr fresh ↦ rw fresh (omega (arith, length-add_all xs (x ∷ names)))
]

-- How many references a component has, if there is one.
abbrev pub refs_count : Option Value → ℕ
refs_count none = 0
refs_count (some schema) = length (refs_of schema)

length-visit :
    (o : Option Value) (pending : List String)
    → length (visit o pending) ≤ length pending + refs_count o
length-visit none pending = omega arith
length-visit (some schema) pending =
    omega
      (arith, ap length (collect-add_all schema pending), length-add_all (refs_of schema) pending)

-- The references of the components that are not reached.
unfoldable pub weight : Fields → List String → ℕ
unfolding has refs_of
weight end reached = 0
weight (field k v fs) reached =
    (if has k reached then 0 else length (refs_of v)) + weight fs reached

weight-cons_le :
    (fs : Fields) (name : String) (reached : List String)
    → weight fs (name ∷ reached) ≤ weight fs reached
unfolding weight has
weight-cons_le end name reached = omega arith
weight-cons_le (field k v fs) name reached = ground (arith, weight-cons_le fs name reached)

-- Reaching a component takes its references off.
weight-visit :
    (fs : Fields) (name : String) (reached : List String)
    → has name reached ≡ false
    → weight fs (name ∷ reached) + refs_count (get fs name) ≤ weight fs reached
unfolding weight has get
weight-visit end name reached h = omega arith
weight-visit (field k v fs) name reached h = ground (
  arith,
  h,
  eq_iff name k,
  eq_iff k name,
  weight-cons_le fs name reached,
  weight-visit fs name reached h,
)

pub has-get_or :
    (d : String) (ns : List String) (i : ℕ) → i < length ns → has (get_or ns i d) ns ≡ true
unfolding has
has-get_or d [] i h = absurd (omega arith)
has-get_or d (m ∷ ms) zero h = ground (arith, eq_iff m m)
has-get_or d (m ∷ ms) (suc i) h =
    let later : has (get_or ms i d) ms ≡ true = has-get_or d ms i (omega arith) in
    ground (arith, later)

length-without_le : (name : String) (ns : List String) → length (without name ns) ≤ length ns
unfolding without
length-without_le name [] = omega arith
length-without_le name (n ∷ ns) = ground (arith, length-without_le name ns)

length-without :
    (name : String) (ns : List String) → has name ns ≡ true → length (without name ns) < length ns
unfolding has without
length-without name [] h = cc
length-without name (n ∷ ns) h = ground (arith, length-without_le name ns, length-without name ns)

module _ (order : List String → ℕ) (schemas : Fields) where
  -- What is left to do.
  abbrev pub left : List String → List String → ℕ
  left pending reached = length pending + weight schemas reached

  pub has-next_of :
      (n : String) (ns : List String) → has (next_of order schemas n ns) (n ∷ ns) ≡ true
  has-next_of n ns = has-get_or n (n ∷ ns) _ (mod-lt (order (n ∷ ns)) (omega arith))

  round-left :
      (b : Bool) (name : String) (pending reached : List String)
      → has name reached ≡ b
      → has name pending ≡ true
      → left
          (round order schemas b name (without name pending) reached).0
          (round order schemas b name (without name pending) reached).1
        < left pending reached
  round-left true name pending reached h k = omega (arith, length-without name pending k)
  round-left false name pending reached h k = omega (
    arith,
    length-without name pending k,
    length-visit (get schemas name) (without name pending),
    weight-visit schemas name reached h,
  )

  -- The loop ends within as many rounds as are left to do.
  pub search-ne_none :
      (fuel : ℕ) (pending reached : List String)
      → left pending reached ≤ fuel
      → search order schemas fuel pending reached ≢ none
  unfolding search
  search-ne_none fuel [] reached h e = cc
  search-ne_none zero (n ∷ ns) reached h e = absurd (omega arith)
  search-ne_none (suc fuel) (n ∷ ns) reached h e =
      let name = next_of order schemas n ns in
      let less = round-left (has name reached) name (n ∷ ns) reached refl (has-next_of n ns) in
      search-ne_none fuel _ _ (omega (arith, less, h)) e
