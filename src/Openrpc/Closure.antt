-- ===== src/Openrpc/Closure.antt =====
-- The components that are kept: exactly those that a method refers to, itself or through others.
use package.text.Mathlib.Text.{◌==◌ as str_eq}
use mathlib.Core.Option.{some-injective}
use nano_rpc_gateway.Prelude.{
  ℕ, zero, suc, ◌+◌, ◌≤◌, String, Bool, true, false, ◌||◌, List, [], ◌∷◌, Option, none, some, ◌≡◌,
  refl, ◌≢◌, ◌↔◌, arith, eq_iff, length, if◌then◌else◌, Bool-cases, inl, inr, ap, ◌∙◌, sym, subst,
  Option-cases,
}
use nano_rpc_gateway.Json.{Value, Fields, get}
use nano_rpc_gateway.Openrpc.Refs.{
  has, without, collect_methods, visit, next_of, round, search, retain, retained,
  reachable_component_schemas,
}
use nano_rpc_gateway.Openrpc.Search.{
  refs_of, refs_of_methods, weight, search-ne_none, length-add_all,
}
use nano_rpc_gateway.Openrpc.Reach.{
  Reach, root, follow, has-add_all, has-without, get-retain, collect_methods-add_all, has-visit,
  AllReach, search-AllReach,
}

has-visit_le :
    (n : String) (o : Option Value) (pending : List String)
    → has n pending ≡ true
    → has n (visit o pending) ≡ true
has-visit_le n none pending h = h
has-visit_le n (some schema) pending h = ground (arith, has-visit n schema pending, h)

module _ (order : List String → ℕ) (methods : List Value) (schemas : Fields) where
  -- A name that has been met: it is reached, or it is pending.
  abbrev met : String → List String → List String → Bool
  met n pending reached = has n reached || has n pending

  met-round :
      (b : Bool) (name n : String) (pending reached : List String)
      → has name reached ≡ b
      → met n pending reached ≡ true
      → met n
          (round order schemas b name (without name pending) reached).0
          (round order schemas b name (without name pending) reached).1
        ≡ true
  unfolding has
  met-round true name n pending reached e h =
      ground (arith, h, e, has-without n name pending, eq_iff name n)
  met-round false name n pending reached e h = ground (
    arith,
    h,
    e,
    has-without n name pending,
    eq_iff name n,
    has-visit_le n (get schemas name) (without name pending),
  )

  -- What the reached components refer to has been met.
  Closed : List String → List String → Type 0
  Closed pending reached =
      (m n : String) (schema : Value)
      → has m reached ≡ true
      → get schemas m ≡ some schema
      → has n (refs_of schema) ≡ true
      → met n pending reached ≡ true

  visit-met :
      (n name : String) (schema : Value) (o : Option Value) (pending : List String)
      → o ≡ some schema
      → has n (refs_of schema) ≡ true
      → has n (visit o pending) ≡ true
  visit-met n name schema none pending e h = cc
  visit-met n name schema (some s) pending e h =
      let same : s ≡ schema = some-injective _ _ e in
      ground (arith, has-visit n s pending, ap (λ v. has n (refs_of v)) same, h)

  round-Closed :
      (b : Bool) (name : String) (pending reached : List String)
      → has name reached ≡ b
      → Closed pending reached
      → Closed
          (round order schemas b name (without name pending) reached).0
          (round order schemas b name (without name pending) reached).1
  unfolding Closed has
  round-Closed true name pending reached e h m n schema g there named =
      met-round true name n pending reached e (h m n schema g there named)
  round-Closed false name pending reached e h m n schema g there named =
      elim (Bool-cases (str_eq name m)) [
        | inl same ↦
            let here : get schemas name ≡ some schema =
              ap (get schemas) ((eq_iff name m).0 same) ∙ there in
            ground
              (arith, visit-met n name schema (get schemas name) (without name pending) here named)
        | inr other ↦
            met-round false name n pending reached e
              (h m n schema (ground (arith, g, other)) there named)
      ]

  -- The names that the methods refer to have been met.
  Rooted : List String → List String → Type 0
  Rooted pending reached =
      (n : String) → has n (refs_of_methods methods) ≡ true → met n pending reached ≡ true

  -- Names that contain the methods' references and those of each of their components.
  record Complete (names : List String) : Type 0 where
    roots : (n : String) → has n (refs_of_methods methods) ≡ true → has n names ≡ true
    closed :
        (m n : String) (schema : Value)
        → has m names ≡ true
        → get schemas m ≡ some schema
        → has n (refs_of schema) ≡ true
        → has n names ≡ true

  search-Complete :
      (fuel : ℕ) (pending reached names : List String)
      → search order schemas fuel pending reached ≡ some names
      → Rooted pending reached
      → Closed pending reached
      → Complete names
  unfolding search Rooted Closed has
  search-Complete fuel [] reached names e h k = subst Complete (some-injective _ _ e) (record {
    roots = λ n g. ground (arith, h n g);
    closed = λ m n schema g there named. ground (arith, k m n schema g there named);
  })
  search-Complete zero (n ∷ ns) reached names e h k = cc
  search-Complete (suc fuel) (n ∷ ns) reached names e h k =
      let name = next_of order schemas n ns in
      let b = has name reached in
      search-Complete fuel _ _ names e (λ i g. met-round b name i (n ∷ ns) reached refl (h i g))
        (round-Closed b name (n ∷ ns) reached refl k)

  Reach-has :
      (names : List String) (n : String)
      → Complete names
      → Reach methods schemas n
      → has n names ≡ true
  Reach-has names n c (root _ h) = c.roots n h
  Reach-has names n c (follow m _ schema r there named) =
      c.closed m n schema (Reach-has names m c r) there named

  -- What the search is given to begin with.
  abbrev begin : List String
  begin = collect_methods methods []

  has-begin : (n : String) → has n begin ≡ has n (refs_of_methods methods)
  unfolding has
  has-begin n =
      ap (has n) (collect_methods-add_all methods [])
      ∙ has-add_all n (refs_of_methods methods) []
      ∙ ground arith

  search_iff :
      (fuel : ℕ) (names : List String) (n : String)
      → search order schemas fuel begin [] ≡ some names
      → (has n names ≡ true) ↔ Reach methods schemas n
  unfolding AllReach Rooted Closed has
  search_iff fuel names n e = (
    search-AllReach order methods schemas fuel begin [] names e
        (λ i g. root i (sym (has-begin i) ∙ g)) (λ i g. cc) n,
    Reach-has names n (
        search-Complete fuel begin [] names e (λ i g. ground (arith, has-begin i, g))
          (λ i j schema g. cc)),
  )

-- Fuel for the search: every reference that there is.
abbrev pub all_refs : List Value → Fields → ℕ
all_refs methods schemas = length (refs_of_methods methods) + weight schemas []

-- The search for the components of a document ends, in whatever order the set of pending names is
-- iterated: one round for each reference of the methods and of the components is enough.
pub reachable_component_schemas-ends :
    (order : List String → ℕ) (fuel : ℕ) (methods : List Value) (schemas : Fields)
    → all_refs methods schemas ≤ fuel
    → reachable_component_schemas order fuel methods schemas ≢ none
unfolding reachable_component_schemas
reachable_component_schemas-ends order fuel methods schemas h e = elim (Option-cases found) [
  | inl nothing ↦
      search-ne_none order schemas fuel (collect_methods methods []) []
        (omega (
          arith,
          h,
          ap length (collect_methods-add_all methods []),
          length-add_all (refs_of_methods methods) [],
        ))
        nothing
  | inr (names, there) ↦ absurd (cc (e, there))
]
  where
    found : Option (List String)
    found = search order schemas fuel (collect_methods methods []) []

retained-some :
    (schemas kept : Fields) (o : Option (List String))
    → retained schemas o ≡ some kept
    → (names : List String) × (o ≡ some names) × (retain names schemas ≡ kept)
retained-some schemas kept none h = cc
retained-some schemas kept (some names) h = (names, refl, some-injective _ _ h)

-- The components that are kept are those that can be reached: a component of the document is kept
-- unchanged exactly if a method refers to it, or a component does that can be reached.
pub reachable_component_schemas_iff :
    (order : List String → ℕ) (fuel : ℕ) (methods : List Value) (schemas kept : Fields)
    (name : String) (schema : Value)
    → reachable_component_schemas order fuel methods schemas ≡ some kept
    → (get kept name ≡ some schema)
      ↔ ((get schemas name ≡ some schema) × Reach methods schemas name)
unfolding reachable_component_schemas
reachable_component_schemas_iff order fuel methods schemas kept name schema h =
    let (names, found, same) = retained-some schemas kept _ h in
    let entry : get kept name ≡ (if has name names then get schemas name else none) =
      ap (λ fs. get fs name) (sym same) ∙ get-retain names schemas name in
    let reached = search_iff order methods schemas fuel names name found in
    elim (Bool-cases (has name names)) [
      | inl there ↦ (
        λ g. (ground (arith, entry, there, g), reached.0 there),
        λ (g, r). ground (arith, entry, there, g),
      )
      | inr other ↦ (
        λ g. absurd (ground (arith, entry, other, g)),
        λ (g, r). absurd (ground (arith, other, reached.1 r)),
      )
    ]

-- The order in which the set of pending names is iterated does not matter to what is kept.
pub reachable_component_schemas-order :
    (order other : List String → ℕ) (fuel more : ℕ) (methods : List Value)
    (schemas kept also : Fields) (name : String)
    → reachable_component_schemas order fuel methods schemas ≡ some kept
    → reachable_component_schemas other more methods schemas ≡ some also
    → get kept name ≡ get also name
reachable_component_schemas-order order other fuel more methods schemas kept also name h k =
    let one =
      λ (v : Value). reachable_component_schemas_iff order fuel methods schemas kept name v h in
    let two =
      λ (v : Value). reachable_component_schemas_iff other more methods schemas also name v k in
    elim (Option-cases (get kept name)) [
      | inl gone ↦ elim (Option-cases (get also name)) [
        | inl too ↦ gone ∙ sym too
        | inr (v, there) ↦ absurd (cc (gone, (one v).1 ((two v).0 there)))
      ]
      | inr (v, there) ↦ there ∙ sym ((two v).1 ((one v).0 there))
    ]
