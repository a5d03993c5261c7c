-- ===== src/Openrpc/Reach.antt =====
-- What can be reached from the methods of a document, and that the search finds nothing else.
use package.text.Mathlib.Text.{◌==◌ as str_eq}
use mathlib.Core.Option.{some-injective}
use nano_rpc_gateway.Prelude.{
  ℕ, zero, suc, String, Bool, true, false, ◌||◌, List, [], ◌∷◌, Option, none, some, ◌≡◌, refl,
  arith, eq_iff, if◌then◌else◌, Bool-cases, inl, inr, ap, ◌∙◌, sym, subst,
}
use nano_rpc_gateway.Json.{Value, Fields, end, field, get}
use nano_rpc_gateway.Openrpc.Refs.{
  has, add, without, collect_methods, visit, next_of, round, search, retain,
}
use nano_rpc_gateway.Openrpc.Search.{
  refs_of, refs_of_methods, add_all, add_all-append, collect-add_all, has-next_of,
}

-- The names that the methods refer to, or a component whose name is reached.
pub data Reach (methods : List Value) (schemas : Fields) : String → Type 0 where
  root : (n : String) → has n (refs_of_methods methods) ≡ true → Reach methods schemas n
  follow :
      (m n : String) (schema : Value)
      → Reach methods schemas m
      → get schemas m ≡ some schema
      → has n (refs_of schema) ≡ true
      → Reach methods schemas n

pub has-add_all :
    (n : String) (xs names : List String) → has n (add_all xs names) ≡ (has n xs || has n names)
unfolding has add_all add
has-add_all n [] names = refl
has-add_all n (x ∷ xs) names = ground (arith, eq_iff x n, has-add_all n xs (add x names))

pub has-without :
    (n name : String) (ns : List String)
    → has n (without name ns) ≡ (if str_eq name n then false else has n ns)
unfolding has without
has-without n name [] = ground arith
has-without n name (m ∷ ms) =
    ground (arith, eq_iff m name, eq_iff name n, eq_iff m n, has-without n name ms)

pub get-retain :
    (names : List String) (fs : Fields) (k : String)
    → get (retain names fs) k ≡ (if has k names then get fs k else none)
unfolding get retain
get-retain names end k = ground arith
get-retain names (field j v fs) k = ground (arith, eq_iff j k, get-retain names fs k)

pub collect_methods-add_all :
    (ms : List Value) (names : List String)
    → collect_methods ms names ≡ add_all (refs_of_methods ms) names
unfolding collect_methods refs_of_methods add_all
collect_methods-add_all [] names = refl
collect_methods-add_all (m ∷ ms) names =
    ap (collect_methods ms) (collect-add_all m names)
    ∙ collect_methods-add_all ms (add_all (refs_of m) names)
    ∙ sym (add_all-append (refs_of m) (refs_of_methods ms) names)

pub has-visit :
    (n : String) (schema : Value) (pending : List String)
    → has n (visit (some schema) pending) ≡ (has n (refs_of schema) || has n pending)
has-visit n schema pending =
    ap (has n) (collect-add_all schema pending) ∙ has-add_all n (refs_of schema) pending

module _ (order : List String → ℕ) (methods : List Value) (schemas : Fields) where
  unfoldable pub AllReach : List String → Type 0
  AllReach names = (n : String) → has n names ≡ true → Reach methods schemas n

  visit-AllReach :
      (name : String) (pending : List String) (o : Option Value)
      → get schemas name ≡ o
      → Reach methods schemas name
      → AllReach pending
      → AllReach (visit o pending)
  unfolding AllReach
  visit-AllReach name pending none e r h n g = h n g
  visit-AllReach name pending (some schema) e r h n g = elim (Bool-cases (has n (refs_of schema))) [
    | inl named ↦ follow name n schema r e named
    | inr other ↦ h n (ground (arith, has-visit n schema pending, g, other))
  ]

  round-AllReach :
      (b : Bool) (name : String) (rest reached : List String)
      → Reach methods schemas name
      → AllReach rest
      → AllReach reached
      → AllReach (round order schemas b name rest reached).0
        × AllReach (round order schemas b name rest reached).1
  unfolding AllReach has
  round-AllReach true name rest reached r h k = (h, k)
  round-AllReach false name rest reached r h k = (
    visit-AllReach name rest (get schemas name) refl r h,
    λ n g. elim (Bool-cases (str_eq name n)) [
      | inl same ↦ subst (Reach methods schemas) ((eq_iff name n).0 same) r
      | inr other ↦ k n (ground (arith, g, other))
    ],
  )

  without-AllReach : (name : String) (ns : List String) → AllReach ns → AllReach (without name ns)
  unfolding AllReach
  without-AllReach name ns h n g = h n (ground (arith, has-without n name ns, g))

  next_of-Reach :
      (n : String) (ns : List String)
      → AllReach (n ∷ ns)
      → Reach methods schemas (next_of order schemas n ns)
  unfolding AllReach
  next_of-Reach n ns h = h _ (has-next_of order schemas n ns)

  pub search-AllReach :
      (fuel : ℕ) (pending reached names : List String)
      → search order schemas fuel pending reached ≡ some names
      → AllReach pending
      → AllReach reached
      → AllReach names
  unfolding search
  search-AllReach fuel [] reached names e h k = subst AllReach (some-injective _ _ e) k
  search-AllReach zero (n ∷ ns) reached names e h k = cc
  search-AllReach (suc fuel) (n ∷ ns) reached names e h k =
      let name = next_of order schemas n ns in
      let (pending, done) =
        round-AllReach (has name reached) name (without name (n ∷ ns)) reached
          (next_of-Reach n ns h) (without-AllReach name (n ∷ ns) h) k in
      search-AllReach fuel _ _ names e pending done
